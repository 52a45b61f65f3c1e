-- ===== src/Db/Pages.antt =====
-- ORDER BY, LIMIT and OFFSET of the lists in internal/db/sqlc/registry_*.sql.go.
use fusion_index.Prelude.{Bool, List, [], ◌∷◌, take, drop, if◌then◌else◌}
use fusion_index.Strconv.{ℤ, pos, negsuc}
use fusion_index.Db.{unavailable, DbResult, ok, err}

-- A row goes in before the first one that it precedes.
unfoldable pub insert_by {ℓ} : {A : Type ℓ} → (A → A → Bool) → A → List A → List A
insert_by before x [] = x ∷ []
insert_by before x (y ∷ ys) =
    let rest = insert_by before x ys in if before x y then x ∷ y ∷ ys else y ∷ rest

unfoldable pub order_by {ℓ} : {A : Type ℓ} → (A → A → Bool) → List A → List A
unfolding insert_by
order_by before [] = []
order_by before (x ∷ xs) = insert_by before x (order_by before xs)

-- A LIMIT or an OFFSET below zero is refused by the database.
unfoldable pub page_of : {A : Type 0} → ℤ → ℤ → List A → DbResult (List A)
page_of (negsuc n) offset rows = err unavailable
page_of (pos n) (negsuc m) rows = err unavailable
page_of (pos n) (pos m) rows = ok (take n (drop m rows))
