-- ===== src/Config/Lists.antt =====
-- The comma-separated lists of internal/config/config.go.
use fusion_index.Prelude.{
  ◌≡◌, ◌≢◌, refl, ap, ◌∙◌, List, [], ◌∷◌, Text, All, split, join_from, Lacks, split-join_from,
}
use fusion_index.Config.{add_trimmed, trimmed, split_csv}

-- An entry that the configuration can hold: not empty, trimmed, and without a comma.
abbrev pub IsEntry : (Text → Text) → Text → Type 0
IsEntry trim_space e = (e ≢ []) × (trim_space e ≡ e) × Lacks b',' e

trimmed-entries :
    (trim_space : Text → Text) (es : List Text)
    → All (IsEntry trim_space) es
    → trimmed trim_space es ≡ es
unfolding trimmed
trimmed-entries trim_space [] h = refl
trimmed-entries trim_space (e ∷ es) ((full, trim, _), h) =
    ap (λ t. add_trimmed t (trimmed trim_space es)) trim
    ∙ added e full
    ∙ ap (λ rest. e ∷ rest) (trimmed-entries trim_space es h)
  where
    added : (e : Text) → e ≢ [] → add_trimmed e (trimmed trim_space es) ≡ e ∷ trimmed trim_space es
    added [] full = absurd (full refl)
    added (c ∷ s) full = refl

nonempty :
    (trim_space : Text → Text) (s : Text)
    → s ≢ []
    → split_csv trim_space s ≡ trimmed trim_space (split b',' s)
unfolding split_csv
nonempty trim_space [] h = absurd (h refl)
nonempty trim_space (c ∷ s) h = refl

join_from-ne-nil : (e : Text) (es : List Text) → e ≢ [] → join_from b',' e es ≢ []
unfolding join_from
join_from-ne-nil [] es full = absurd (full refl)
join_from-ne-nil (c ∷ s) [] full = full
join_from-ne-nil (c ∷ s) (x ∷ es) full = λ e. cc

-- One or more entries, written with commas between them, are read as themselves.
split_csv-join_from :
    (trim_space : Text → Text) (e : Text) (es : List Text)
    → All (IsEntry trim_space) (e ∷ es)
    → split_csv trim_space (join_from b',' e es) ≡ e ∷ es
split_csv-join_from trim_space e es h =
    nonempty trim_space _ (join_from-ne-nil e es h.0.0)
    ∙ ap (trimmed trim_space) (split-join_from b',' e es h.0.2 (lacking es h.1))
    ∙ trimmed-entries trim_space (e ∷ es) h
  where
    lacking : (es : List Text) → All (IsEntry trim_space) es → All (Lacks b',') es
    lacking [] k = tt
    lacking (x ∷ xs) (k, ks) = (k.2, lacking xs ks)
