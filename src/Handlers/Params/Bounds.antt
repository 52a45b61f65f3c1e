-- ===== src/Handlers/Params/Bounds.antt =====
-- The integers that internal/api/handlers/helpers.go reads from a query, where they fit in an int32
-- and where they do not.
use fusion_index.Prelude.{
  ℕ, ◌+◌, ◌^◌, ◌≡◌, ◌≢◌, ◌<◌, ◌≤◌, refl, ◌∙◌, ap, none, some, [], ◌∷◌, Text, arith, ltb,
  if◌then◌else◌, suc, ◌*◌, ◌%◌,
}
use fusion_index.Strconv.{ℤ, pos, print, int64_cutoff}
use fusion_index.Strconv.RoundTrip.{parse_int-print, print-ne-nil}
use fusion_index.Handlers.Params.{
  to_int32, atoi, int32_at_least, parse_optional_int32, int_or, parse_int_default, at_least_zero,
  at_least_one, parse_pagination, row_limit, row_offset,
}

pub to_int32-small : (n : ℕ) → n < 2 ^ 31 → to_int32 n ≡ pos n
unfolding to_int32
to_int32-small n h = ground arith

to_int32-wrapped : (n : ℕ) → n < 2 ^ 31 → to_int32 (2 ^ 32 + n) ≡ pos n
unfolding to_int32
to_int32-wrapped n h = ground arith

given_text :
    (min : ℕ) (s : Text) → s ≢ [] → parse_optional_int32 min s ≡ int32_at_least min (atoi s)
unfolding parse_optional_int32
given_text min [] h = absurd (h refl)
given_text min (c ∷ s) h = refl

read_print :
    (min n : ℕ)
    → n < 2 ^ 63
    → parse_optional_int32 min (print n) ≡ (if ltb n min then none else some (some (to_int32 n)))
unfolding int32_at_least
read_print min n h =
    given_text min (print n) (print-ne-nil n)
    ∙ ap (int32_at_least min) (parse_int-print int64_cutoff n h)

-- The decimal text of a number below 2^31 is refused if the number is below the minimum, and read
-- as that number otherwise.
pub parse_optional_int32-print :
    (min n : ℕ)
    → n < 2 ^ 31
    → parse_optional_int32 min (print n) ≡ (if ltb n min then none else some (some (pos n)))
parse_optional_int32-print min n h =
    read_print min n (omega (arith, h))
    ∙ ap (λ z. if ltb n min then none else some (some z)) (to_int32-small n h)

-- For a number from 2^32 up to 2^32 + 2^31 that is at least the minimum, what is read is the number
-- less 2^32, which can be below the minimum.
pub parse_optional_int32-wraps :
    (min n : ℕ)
    → n < 2 ^ 31
    → min ≤ 2 ^ 32
    → parse_optional_int32 min (print (2 ^ 32 + n)) ≡ some (some (pos n))
parse_optional_int32-wraps min n h k =
    read_print min (2 ^ 32 + n) (omega (arith, h))
    ∙ rw (to_int32-wrapped n h) (not_below (2 ^ 32 + n) (omega (arith, k)))
  where
    not_below :
        (m : ℕ) → min ≤ m → (if ltb m min then none else some (some (pos n))) ≡ some (some (pos n))
    not_below m le = ground arith

default_print : (n : ℕ) (def : ℤ) → n < 2 ^ 63 → parse_int_default (print n) def ≡ pos n
unfolding parse_int_default
default_print n def h =
    present (print n) (print-ne-nil n) ∙ ap (int_or def) (parse_int-print int64_cutoff n h)
  where
    present : (s : Text) → s ≢ [] → parse_int_default s def ≡ int_or def (atoi s)
    present [] e = absurd (e refl)
    present (c ∷ s) e = refl

page_of_print :
    (n k : ℕ)
    → n < 2 ^ 63
    → suc k < 2 ^ 63
    → parse_pagination (print n) (print (suc k)) ≡ record { page = n; page_size = suc k }
unfolding parse_pagination
page_of_print n k hn hk =
    let page = ap at_least_zero (default_print n (pos 0) hn) in
    let page_size = ap at_least_one (default_print (suc k) (pos 20) hk) in
    λ i. record { page = page i; page_size = page_size i }

-- Where the page size and the number of rows before the page are below 2^31, the decimal texts of a
-- page and of a page size of at least one give that LIMIT and that OFFSET.
pub parse_pagination-print :
    (n k : ℕ)
    → n < 2 ^ 63
    → suc k < 2 ^ 31
    → n * suc k < 2 ^ 31
    → (row_limit (parse_pagination (print n) (print (suc k))) ≡ pos (suc k))
      × (row_offset (parse_pagination (print n) (print (suc k))) ≡ pos (n * suc k))
unfolding row_limit row_offset
parse_pagination-print n k hn hk small =
    let read = page_of_print n k hn (omega (arith, hk)) in
    (ap row_limit read ∙ to_int32-small (suc k) hk, ap row_offset read ∙ offset (n * suc k) small)
  where
    offset : (m : ℕ) → m < 2 ^ 31 → to_int32 (m % 2 ^ 64) ≡ pos m
    offset m h =
        let same : m % 2 ^ 64 ≡ m = omega (arith, h) in ap to_int32 same ∙ to_int32-small m h
