-- ===== src/Db/Windowed.antt =====
-- The lists of internal/db/sqlc whose rows carry COUNT(*) OVER (): every row has the number of the
-- rows before LIMIT and OFFSET.
use fusion_index.Prelude.{ℕ, Option, none, some, List, map, length, drop}
use fusion_index.Strconv.{ℤ, pos, negsuc}
use fusion_index.Db.{unavailable, DbResult, ok, err}
use fusion_index.Db.Pages.{page_of}

pub record Counted (A : Type 0) : Type 0 where
  pub row : A
  pub total_count : ℕ

unfoldable pub counted_rows : {A : Type 0} → List A → List (Counted A)
counted_rows rows = map (λ a. record { row = a; total_count = length rows }) rows

-- LIMIT NULL is no limit.
unfoldable pub limited : {A : Type 0} → Option ℤ → ℤ → List A → DbResult (List A)
unfolding page_of
limited none (negsuc m) rows = err unavailable
limited none (pos m) rows = ok (drop m rows)
limited (some n) offset rows = page_of n offset rows
