-- ===== src/Strconv/RoundTrip.antt =====
-- A number that is printed is read back, and printing is injective.
use fusion_index.Prelude.{
  ℕ, zero, suc, ◌+◌, ◌-◌, ◌*◌, ◌/◌, ◌%◌, ◌<◌, ◌≡◌, refl, ap, ◌∙◌, true, some, [], ◌∷◌, ◌++◌, Text,
  arith, ◌≢◌, ltb, All, All-append, Bool-cases, inl, inr, ltb→lt,
}
use fusion_index.Strconv.{pos, is_digit, scan, parse_int, print_fuel, print}

-- A run that is read in two parts.
scan-append : (acc n : ℕ) (s t : Text) → scan acc s ≡ some n → scan acc (s ++ t) ≡ scan n t
unfolding scan
scan-append acc n [] t h = ground arith
scan-append acc n (c ∷ s) t h = ground (arith, scan-append (acc * 10 + (c - 48)) n s t)

digit_value : (d acc : ℕ) → d < 10 → scan acc ((b'0' + d) ∷ []) ≡ some (acc * 10 + d)
unfolding scan
digit_value d acc h = ground arith

scan-print_fuel : (fuel n : ℕ) → n < fuel → scan 0 (print_fuel fuel n) ≡ some n
unfolding print_fuel
scan-print_fuel zero n h = absurd (omega arith)
scan-print_fuel (suc fuel) n h = elim (Bool-cases (ltb n 10)) [
  | inl small ↦ rw small (digit_value n 0 (ltb→lt n 10 small) ∙ ap some (omega arith))
  | inr large ↦ rw large (
      scan-append 0 (n / 10) (print_fuel fuel (n / 10)) _
        (scan-print_fuel fuel (n / 10) (ground arith))
      ∙ digit_value (n % 10) (n / 10) (omega arith)
      ∙ ap some (omega arith))
]

abbrev Digits : Text → Type 0
Digits = All (λ c. is_digit c ≡ true)

digit_is_digit : (d : ℕ) → d < 10 → is_digit (b'0' + d) ≡ true
unfolding is_digit
digit_is_digit d h = ground arith

pub print_fuel-Digits : (fuel n : ℕ) → Digits (print_fuel fuel n)
unfolding print_fuel
print_fuel-Digits zero n = tt
print_fuel-Digits (suc fuel) n = elim (Bool-cases (ltb n 10)) [
  | inl small ↦ rw small (digit_is_digit n (ltb→lt n 10 small), tt)
  | inr large ↦ rw large (
      All-append (λ c. is_digit c ≡ true) (print_fuel fuel (n / 10)) _
        (print_fuel-Digits fuel (n / 10)) (digit_is_digit (n % 10) (omega arith), tt))
]

-- Every byte of a printed number is a digit.
pub print-Digits : (n : ℕ) → All (λ c. is_digit c ≡ true) (print n)
unfolding print
print-Digits n = print_fuel-Digits (suc n) n

scan-print : (n : ℕ) → scan 0 (print n) ≡ some n
unfolding print
scan-print n = scan-print_fuel (suc n) n (omega arith)

parse_int-digits :
    (cutoff n : ℕ) (s : Text)
    → All (λ c. is_digit c ≡ true) s
    → scan 0 s ≡ some n
    → s ≢ []
    → n < cutoff
    → parse_int cutoff s ≡ some (pos n)
unfolding parse_int is_digit
parse_int-digits cutoff n [] d h e lt = absurd (e refl)
parse_int-digits cutoff n (c ∷ s) d h e lt = ground arith

snoc-ne-nil : (s : Text) (c : ℕ) → s ++ c ∷ [] ≢ []
snoc-ne-nil [] c e = cc
snoc-ne-nil (d ∷ s) c e = cc

pub print-ne-nil : (n : ℕ) → print n ≢ []
unfolding print
print-ne-nil n = ground (arith, snoc-ne-nil (print_fuel n (n / 10)) (48 + n % 10))

-- Reading a printed number gives it back, if it is below the cutoff.
pub parse_int-print : (cutoff n : ℕ) → n < cutoff → parse_int cutoff (print n) ≡ some (pos n)
parse_int-print cutoff n h =
    parse_int-digits cutoff n (print n) (print-Digits n) (scan-print n) (print-ne-nil n) h

-- Two numbers that are printed alike are one.
pub print-injective : (m n : ℕ) → print m ≡ print n → m ≡ n
print-injective m n e = cc (scan-print m, scan-print n)
