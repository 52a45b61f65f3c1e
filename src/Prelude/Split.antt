-- ===== src/Prelude/Split.antt =====
-- strings.Split with a separator of one byte, and the text that has the separator between parts.
use Prim.Native.Nat.{ℕ}
use mathlib.Core.Path.{◌≡◌, ◌∙◌, refl, ap}
use mathlib.Core.Logic.{◌≢◌}
use mathlib.Core.Bool.{false}
use mathlib.Core.List.{List, [], ◌∷◌, ◌++◌}
use native.Mathlib.Omega.{arith}
use fusion_index.Prelude.Tests.{◌==◌, if◌then◌else◌}
use fusion_index.Prelude.Lists.{All}
use fusion_index.Prelude.Rows.{exists}
use fusion_index.Prelude.Bytes.{Text}

-- A byte in front of the first part.
abbrev before_first : ℕ → List Text → List Text
before_first c [] = (c ∷ []) ∷ []
before_first c (part ∷ parts) = (c ∷ part) ∷ parts

unfoldable pub split : ℕ → Text → List Text
split sep [] = [] ∷ []
split sep (c ∷ s) = let rest = split sep s in if c == sep then [] ∷ rest else before_first c rest

-- The separator does not occur.
abbrev pub Lacks : ℕ → Text → Type 0
Lacks sep s = All (λ c. c ≢ sep) s

-- A text with a tail of parts, each behind the separator.
unfoldable pub join_from : ℕ → Text → List Text → Text
join_from sep part [] = part
join_from sep part (next ∷ parts) = part ++ (sep ∷ join_from sep next parts)

split-last : (sep : ℕ) (part : Text) → Lacks sep part → split sep part ≡ part ∷ []
unfolding split
split-last sep [] h = refl
split-last sep (c ∷ part) (other, h) =
    ap (λ rest. if c == sep then [] ∷ rest else before_first c rest) (split-last sep part h)
    ∙ ground (arith, other)

split-first :
    (sep : ℕ) (part s : Text) → Lacks sep part → split sep (part ++ (sep ∷ s)) ≡ part ∷ split sep s
unfolding split
split-first sep [] s h = ground arith
split-first sep (c ∷ part) s (other, h) =
    ap (λ rest. if c == sep then [] ∷ rest else before_first c rest) (split-first sep part s h)
    ∙ ground (arith, other)

-- Parts without the separator, joined by it, are split into themselves.
pub split-join_from :
    (sep : ℕ) (part : Text) (parts : List Text)
    → Lacks sep part
    → All (Lacks sep) parts
    → split sep (join_from sep part parts) ≡ part ∷ parts
unfolding join_from
split-join_from sep part [] h hs = split-last sep part h
split-join_from sep part (next ∷ parts) h (k, hs) =
    split-first sep part (join_from sep next parts) h
    ∙ ap (λ rest. part ∷ rest) (split-join_from sep next parts k hs)

pub Lacks-of : (sep : ℕ) (s : Text) → exists (λ c. c == sep) s ≡ false → Lacks sep s
unfolding exists
Lacks-of sep [] h = tt
Lacks-of sep (c ∷ s) h = (ground arith, Lacks-of sep s (ground arith))
