-- ===== src/Semver/RoundTrip.antt =====
-- What `Parse` accepts, and that printing and parsing undo one another.
use fusion_index.Prelude.{
  ℕ, suc, ◌<◌, ◌≡◌, refl, ap, ◌∙◌, true, some, List, [], ◌∷◌, ◌++◌, Text, arith, All,
}
use fusion_index.Strconv.{is_digit, parse_int, int32_cutoff, print}
use fusion_index.Strconv.RoundTrip.{parse_int-print, print-Digits}
use fusion_index.Semver.{Semver, IsInt32, split_n, parse_non_negative, of_parts, parse, to_text}

-- Digits before the separator are the first part.
split_n-digits :
    (n : ℕ) (d s : Text)
    → All (λ c. is_digit c ≡ true) d
    → split_n b'.' (suc (suc n)) (d ++ b'.' ∷ s) ≡ d ∷ split_n b'.' (suc n) s
unfolding split_n is_digit
split_n-digits n [] s h = refl
split_n-digits n (c ∷ d) s (p, h) = ground (arith, split_n-digits n d s h)

split_n-three :
    (a b c : Text)
    → All (λ x. is_digit x ≡ true) a
    → All (λ x. is_digit x ≡ true) b
    → split_n b'.' 3 (a ++ b'.' ∷ (b ++ b'.' ∷ c)) ≡ a ∷ b ∷ c ∷ []
unfolding split_n
split_n-three a b c ha hb =
    split_n-digits 1 a (b ++ b'.' ∷ c) ha ∙ ap (λ r. a ∷ r) (split_n-digits 0 b c hb)

component : (n : ℕ) → n < int32_cutoff → parse_non_negative (print n) ≡ some n
unfolding parse_non_negative
component n h = rw (parse_int-print int32_cutoff n h)

of_parts-print :
    (sv : Semver)
    → IsInt32 sv
    → of_parts (print sv.major ∷ print sv.minor ∷ print sv.patch ∷ []) ≡ some sv
unfolding of_parts
of_parts-print sv h =
    rw (component sv.major h.major, component sv.minor h.minor, component sv.patch h.patch)

-- A version whose components are int32 values is parsed back from its printed form.
pub parse-to_text : (sv : Semver) → IsInt32 sv → parse (to_text sv) ≡ some sv
unfolding parse to_text
parse-to_text sv h =
    ap of_parts (
      split_n-three (print sv.major) (print sv.minor) (print sv.patch) (print-Digits sv.major)
        (print-Digits sv.minor))
    ∙ of_parts-print sv h

component_bound : (s : Text) (n : ℕ) → parse_non_negative s ≡ some n → n < int32_cutoff
unfolding parse_non_negative parse_int
component_bound [] n h = cc
component_bound (c ∷ s) n h = ground arith

of_parts-IsInt32 : (parts : List Text) (sv : Semver) → of_parts parts ≡ some sv → IsInt32 sv
unfolding of_parts
of_parts-IsInt32 (a ∷ b ∷ c ∷ []) sv h = grind (arith, component_bound)
of_parts-IsInt32 _ sv h = cc

-- Whatever is parsed has components in the int32 range.
pub parse-IsInt32 : (s : Text) (sv : Semver) → parse s ≡ some sv → IsInt32 sv
unfolding parse
parse-IsInt32 s sv h = of_parts-IsInt32 (split_n b'.' 3 s) sv h

-- Parsing and printing again normalises: the printed form of a parsed version parses to it.
pub parse-to_text-parse :
    (s : Text) (sv : Semver) → parse s ≡ some sv → parse (to_text sv) ≡ some sv
parse-to_text-parse s sv h = parse-to_text sv (parse-IsInt32 s sv h)

-- Two versions in range that are printed alike are one.
to_text-injective : (u v : Semver) → IsInt32 u → IsInt32 v → to_text u ≡ to_text v → u ≡ v
to_text-injective u v hu hv e = cc (parse-to_text u hu, parse-to_text v hv)
