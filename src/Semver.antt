-- ===== src/Semver.antt =====
-- internal/semver/semver.go: versions of the form major.minor.patch. A component is an int32 that
-- is not negative, so it stands as a number; error messages are dropped.
pub mod RoundTrip
use fusion_index.Prelude.{
  ℕ, zero, suc, ◌<◌, ◌≡◌, refl, Bool, true, false, Option, none, some, List, [], ◌∷◌, ◌++◌, Text,
  codes, ◌==◌, if◌then◌else◌,
}
use fusion_index.Strconv.{ℤ, pos, negsuc, parse_int, int32_cutoff, print}

pub record Semver : Type 0 where
  pub major : ℕ
  pub minor : ℕ
  pub patch : ℕ

abbrev cons_head : ℕ → List Text → List Text
cons_head c [] = (c ∷ []) ∷ []
cons_head c (part ∷ parts) = (c ∷ part) ∷ parts

-- strings.SplitN(s, sep, n) for a one-byte separator: at most `n` parts, the last one unsplit.
unfoldable pub split_n : ℕ → ℕ → Text → List Text
split_n sep zero s = []
split_n sep (suc zero) s = s ∷ []
split_n sep (suc (suc n)) [] = [] ∷ []
split_n sep (suc (suc n)) (c ∷ s) = elim (c == sep) [
  | true ↦ [] ∷ split_n sep (suc n) s
  | false ↦ cons_head c (split_n sep (suc (suc n)) s)
]

unfoldable pub non_negative : Option ℤ → Option ℕ
non_negative none = none
non_negative (some (pos n)) = some n
non_negative (some (negsuc n)) = none

unfoldable pub parse_non_negative : Text → Option ℕ
unfolding non_negative
parse_non_negative s = non_negative (parse_int int32_cutoff s)

-- The three components, the first that fails ending the parse.
infixl 5 ◌>>=◌
abbrev ◌>>=◌ : {A B : Type 0} → Option A → (A → Option B) → Option B
none >>= f = none
some a >>= f = f a

unfoldable pub of_parts : List Text → Option Semver
of_parts (a ∷ b ∷ c ∷ []) = do
  major ← parse_non_negative a
  minor ← parse_non_negative b
  patch ← parse_non_negative c
  some (record { major = major; minor = minor; patch = patch })
of_parts _ = none

unfoldable pub parse : Text → Option Semver
unfolding of_parts split_n parse_non_negative
parse s = of_parts (split_n b'.' 3 s)

-- Semver.String.
unfoldable pub to_text : Semver → Text
to_text sv = print sv.major ++ (b'.' ∷ print sv.minor ++ (b'.' ∷ print sv.patch))

-- Every component is an int32.
pub record IsInt32 (sv : Semver) : Type 0 where
  pub major : sv.major < int32_cutoff
  pub minor : sv.minor < int32_cutoff
  pub patch : sv.patch < int32_cutoff
