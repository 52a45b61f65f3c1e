-- ===== src/Handlers/Windowed.antt =====
-- The lists of internal/api/handlers whose total rides on their rows (VersionHandler.ListAll and
-- TagHandler.ListAll).
pub mod Pages
use fusion_index.Prelude.{ℕ, zero, suc, List, [], ◌∷◌, map}
use fusion_index.Db.Windowed.{Counted}
use fusion_index.Handlers.{Handler, ◌>>=◌, pure}

unfoldable pub first_total : {A : Type 0} → List (Counted A) → ℕ
first_total [] = 0
first_total (r ∷ rows) = r.total_count

-- Past the last page there is no row for the total to ride on, and page 0 is asked.
unfoldable pub total_of_page :
    {A : Type 0} → ℕ → List (Counted A) → Handler (List (Counted A)) → Handler ℕ
unfolding first_total
total_of_page page (r ∷ rows) first = pure r.total_count
total_of_page zero [] first = pure 0
total_of_page (suc k) [] first = do rows ← first; pure (first_total rows)

unfoldable pub plain_rows : {A : Type 0} → List (Counted A) → List A
plain_rows rows = map (λ r. r.row) rows
