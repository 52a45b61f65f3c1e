-- ===== src/Handlers/Params.antt =====
-- The path and query parameters of internal/api/handlers/helpers.go. `none` stands for an answer
-- with status 400. An absent query parameter is the empty text.
pub mod Bounds
pub mod Walk
use fusion_index.Prelude.{
  ℕ, zero, suc, ◌+◌, ◌-◌, ◌*◌, ◌%◌, ◌^◌, ◌≡◌, refl, Bool, true, false, ◌&&◌, ◌||◌, not, Option,
  none, some, is_some, List, [], ◌∷◌, ◌++◌, map, length, take, drop, Text, codes, keep_if, find,
  exists, text_eq, ltb, leb, ◌==◌, if◌then◌else◌,
}
use fusion_index.Strconv.{ℤ, pos, negsuc, parse_int, int64_cutoff}

-- An int64 as its bit pattern.
unfoldable pub to_bits : ℕ → ℤ → ℕ
to_bits width (pos n) = n % 2 ^ width
to_bits width (negsuc n) = 2 ^ width - 1 - n % 2 ^ width

-- int32(n) for a number that is not negative.
unfoldable pub to_int32 : ℕ → ℤ
to_int32 n = let b = n % 2 ^ 32 in if ltb b (2 ^ 31) then pos b else negsuc (2 ^ 32 - 1 - b)

-- pathID, pathFileID and pathTypeID
unfoldable pub path_id : Text → Option ℕ
unfolding to_bits
path_id raw = elim (parse_int int64_cutoff raw) [ none ↦ none | some n ↦ some (to_bits 64 n) ]

-- strconv.Atoi, on a platform where int has 64 bits
abbrev pub atoi : Text → Option ℤ
atoi = parse_int int64_cutoff

unfoldable pub int_or : ℤ → Option ℤ → ℤ
int_or def none = def
int_or def (some n) = n

-- parseIntDefault
unfoldable pub parse_int_default : Text → ℤ → ℤ
unfolding int_or
parse_int_default [] def = def
parse_int_default (c ∷ s) def = int_or def (atoi (c ∷ s))

pub record Page : Type 0 where
  pub page : ℕ
  pub page_size : ℕ

unfoldable pub at_least_zero : ℤ → ℕ
at_least_zero (pos n) = n
at_least_zero (negsuc n) = 0

unfoldable pub at_least_one : ℤ → ℕ
at_least_one (pos zero) = 1
at_least_one (pos (suc n)) = suc n
at_least_one (negsuc n) = 1

-- parsePagination
unfoldable pub parse_pagination : Text → Text → Page
unfolding parse_int_default at_least_zero at_least_one
parse_pagination page page_size = record {
  page = at_least_zero (parse_int_default page (pos 0));
  page_size = at_least_one (parse_int_default page_size (pos 20));
}

-- int32(pageSize)
unfoldable pub row_limit : Page → ℤ
unfolding to_int32
row_limit p = to_int32 p.page_size

-- int32(page * pageSize), the product taken in int64
unfoldable pub row_offset : Page → ℤ
unfolding to_int32
row_offset p = to_int32 ((p.page * p.page_size) % 2 ^ 64)

unfoldable pub int32_at_least : ℕ → Option ℤ → Option (Option ℤ)
unfolding to_int32
int32_at_least min none = none
int32_at_least min (some (negsuc n)) = none
int32_at_least min (some (pos n)) = if ltb n min then none else some (some (to_int32 n))

-- parseOptionalInt32
unfoldable pub parse_optional_int32 : ℕ → Text → Option (Option ℤ)
unfolding int32_at_least
parse_optional_int32 min [] = some none
parse_optional_int32 min (c ∷ s) = int32_at_least min (atoi (c ∷ s))

unfoldable pub int64_at_least_zero : Option ℤ → Option (Option ℕ)
int64_at_least_zero none = none
int64_at_least_zero (some (negsuc n)) = none
int64_at_least_zero (some (pos n)) = some (some n)

-- parseOptionalInt64
unfoldable pub parse_optional_int64 : Text → Option (Option ℕ)
unfolding int64_at_least_zero
parse_optional_int64 [] = some none
parse_optional_int64 (c ∷ s) = int64_at_least_zero (parse_int int64_cutoff (c ∷ s))

unfoldable pub one_of : Text → List Text → Bool
one_of s names = exists (λ name. text_eq s name) names

-- strconv.ParseBool
unfoldable pub parse_bool : Text → Option Bool
unfolding one_of
parse_bool s =
    if one_of s
      (codes "1" ∷ codes "t" ∷ codes "T" ∷ codes "TRUE" ∷ codes "true" ∷ codes "True" ∷ [])
    then some true
    else if one_of s
        (codes "0" ∷ codes "f" ∷ codes "F" ∷ codes "FALSE" ∷ codes "false" ∷ codes "False" ∷ [])
    then some false
    else none

unfoldable pub given : {A : Type 0} → Option A → Option (Option A)
given none = none
given (some a) = some (some a)

-- parseOptionalBool
unfoldable pub parse_optional_bool : Text → Option (Option Bool)
unfolding parse_bool given
parse_optional_bool [] = some none
parse_optional_bool (c ∷ s) = given (parse_bool (c ∷ s))

-- parseOptionalOlderThan, over the reading of RFC 3339 times as instants
unfoldable pub parse_optional_older_than : (Text → Option ℕ) → Text → Option (Option ℕ)
unfolding given
parse_optional_older_than parse_time [] = some none
parse_optional_older_than parse_time (c ∷ s) = given (parse_time (c ∷ s))

-- parseOlderThan: the parameter is required
unfoldable pub parse_older_than : (Text → Option ℕ) → Text → Option ℕ
parse_older_than parse_time [] = none
parse_older_than parse_time (c ∷ s) = parse_time (c ∷ s)
