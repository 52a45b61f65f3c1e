-- ===== src/Strconv.antt =====
-- Decimal numbers as Go's strconv and fmt read and print them, on which internal/semver/semver.go
-- and internal/api/handlers/helpers.go rest: ParseInt(s, 10, bits), Atoi and the verb %d.
pub mod RoundTrip
use fusion_index.Prelude.{
  ℕ, zero, suc, ◌+◌, ◌-◌, ◌*◌, ◌/◌, ◌%◌, ◌^◌, ◌≡◌, refl, Bool, true, false, ◌&&◌, Option, none,
  some, List, [], ◌∷◌, ◌++◌, Text, codes, ltb, leb, ◌==◌, if◌then◌else◌,
}

-- A signed value; `negsuc n` is -(n + 1).
pub data ℤ : Type 0 where
  pos : ℕ → ℤ
  negsuc : ℕ → ℤ

unfoldable pub is_digit : ℕ → Bool
is_digit c = leb b'0' c && leb c b'9'

-- The value of a run of digits after `acc`; `none` at any other byte.
unfoldable pub scan : ℕ → Text → Option ℕ
unfolding is_digit
scan acc [] = some acc
scan acc (c ∷ s) = let rest = scan (acc * 10 + (c - b'0')) s in if is_digit c then rest else none

-- ParseUint in base 10: at least one digit.
unfoldable pub parse_digits : Text → Option ℕ
unfolding scan
parse_digits [] = none
parse_digits (c ∷ s) = scan 0 (c ∷ s)

-- A magnitude below the cutoff 2 ^ (bits - 1) is in range.
unfoldable pub positive_in_range : ℕ → Option ℕ → Option ℤ
positive_in_range cutoff none = none
positive_in_range cutoff (some n) = if ltb n cutoff then some (pos n) else none

unfoldable pub negate : ℕ → ℤ
negate zero = pos zero
negate (suc n) = negsuc n

-- A negative magnitude may be the cutoff itself.
unfoldable pub negative_in_range : ℕ → Option ℕ → Option ℤ
unfolding negate
negative_in_range cutoff none = none
negative_in_range cutoff (some n) = if leb n cutoff then some (negate n) else none

-- ParseInt(s, 10, bits) with cutoff = 2 ^ (bits - 1): an optional sign, then digits in range.
unfoldable pub parse_int : ℕ → Text → Option ℤ
unfolding parse_digits positive_in_range negative_in_range
parse_int cutoff [] = none
parse_int cutoff (c ∷ s) =
    if c == b'+'
    then positive_in_range cutoff (parse_digits s)
    else if c == b'-'
    then negative_in_range cutoff (parse_digits s)
    else positive_in_range cutoff (parse_digits (c ∷ s))

abbrev pub int32_cutoff : ℕ
int32_cutoff = 2 ^ 31

abbrev pub int64_cutoff : ℕ
int64_cutoff = 2 ^ 63

-- The digits of `n`, most significant first; `fuel` bounds their number.
unfoldable pub print_fuel : ℕ → ℕ → Text
print_fuel zero n = []
print_fuel (suc fuel) n =
    let front = print_fuel fuel (n / 10) in
    if ltb n 10 then (b'0' + n) ∷ [] else front ++ (b'0' + n % 10) ∷ []

-- %d of a number that is not negative.
unfoldable pub print : ℕ → Text
unfolding print_fuel
print n = print_fuel (suc n) n

-- A byte that is none of "+-" begins an unsigned number.
parse_tests :
    (parse_int int32_cutoff (codes "2147483647") ≡ some (pos 2147483647))
    × (parse_int int32_cutoff (codes "2147483648") ≡ none)
    × (parse_int int32_cutoff (codes "-2147483648") ≡ some (negsuc 2147483647))
    × (parse_int int32_cutoff (codes "-0") ≡ some (pos 0))
    × (parse_int int32_cutoff (codes "+07") ≡ some (pos 7))
    × (parse_int int32_cutoff (codes "1_0") ≡ none)
    × (parse_int int32_cutoff (codes "+") ≡ none)
    × (parse_int int32_cutoff [] ≡ none)
unfolding parse_int
parse_tests = (refl, refl, refl, refl, refl, refl, refl, refl)

print_tests : (print 0 ≡ codes "0") × (print 120 ≡ codes "120")
unfolding print
print_tests = (refl, refl)
