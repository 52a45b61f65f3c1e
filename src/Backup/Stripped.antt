-- ===== src/Backup/Stripped.antt =====
-- cmd/server/restore.go: what the removal of the setting leaves of a dump.
use fusion_index.Prelude.{
  ◌≡◌, ◌⊎◌, inl, inr, refl, sym, ap, ◌∙◌, Bool, true, false, none, some, List, [], ◌∷◌, ◌++◌, Text,
  All, keep_if, Bool-cases, ◌==◌,
}
use mathlib.Core.List.{append_assoc, append-nil}
use fusion_index.Backup.Restore.{
  Reader, read_lines, concat, is_preamble, is_kept, add_kept, end_lines, strip_lines,
  strip_incompatible_settings,
}

-- The lines of a text, each with its newline but the last.
abbrev pub lines_of : Text → List Text
lines_of s = (read_lines s).0 ∷ (read_lines s).1

concat-lines_of : (s : Text) → concat (lines_of s) ≡ s
unfolding read_lines concat
concat-lines_of [] = refl
concat-lines_of (c ∷ s) = elim (Bool-cases (c == 10)) [
  | inl e ↦ rw e (ap (λ t. c ∷ t) (concat-lines_of s))
  | inr e ↦ rw e (ap (λ t. c ∷ t) (concat-lines_of s))
]

concat-append : (xs ys : List Text) → concat (xs ++ ys) ≡ concat xs ++ concat ys
unfolding concat
concat-append [] ys = refl
concat-append (x ∷ xs) ys =
    ap (λ t. x ++ t) (concat-append xs ys) ∙ sym (append_assoc x (concat xs) (concat ys))

module _ (trim_space : Text → Text) where
  -- There is no line, or the first is not one of the preamble.
  abbrev pub Stops : List Text → Type 0
  Stops [] = Unit
  Stops (line ∷ rest) = is_preamble trim_space line ≡ false

  -- The lines are those of the preamble and others, and what is left of them is the kept lines of
  -- the preamble and all of the others.
  pub record Stripped (lines : List Text) (left : Text) : Type 0 where
    pub preamble : List Text
    pub others : List Text
    pub split : lines ≡ preamble ++ others
    pub all : All (λ line. is_preamble trim_space line ≡ true) preamble
    pub stops : Stops others
    pub kept : left ≡ concat (keep_if (is_kept trim_space) preamble) ++ concat others

  kept-add_kept :
      (head line : Text) (pre : List Text) (t : Text)
      → add_kept trim_space head line ++ (concat (keep_if (is_kept trim_space) pre) ++ t)
        ≡ head ++ (concat (keep_if (is_kept trim_space) (line ∷ pre)) ++ t)
  unfolding add_kept keep_if concat
  kept-add_kept head line pre t = elim (Bool-cases (is_kept trim_space line)) [
    | inl e ↦ rw e (
        append_assoc head line (concat (keep_if (is_kept trim_space) pre) ++ t)
        ∙ ap (λ u. head ++ u)
            (sym (append_assoc line (concat (keep_if (is_kept trim_space) pre)) t)))
    | inr e ↦ rw e refl
  ]

  -- The loop, from a head on: it gives a reader, or the reader is broken.
  record Loop (broken : Bool) (head line : Text) (rest : List Text) (r : Reader) : Type 0 where
    result : strip_lines trim_space broken head line rest ≡ some r
    same : r.broken ≡ broken
    left : Text
    text : r.text ≡ head ++ left
    stripped : Stripped (line ∷ rest) left

  strip_lines-Loop :
      (broken : Bool) (head line : Text) (rest : List Text)
      → ((strip_lines trim_space broken head line rest ≡ none) × (broken ≡ true))
        ⊎ ((r : Reader) × Loop broken head line rest r)
  unfolding strip_lines end_lines concat keep_if
  strip_lines-Loop true head line [] = inl (refl, refl)
  strip_lines-Loop false head line [] = elim (Bool-cases (is_preamble trim_space line)) [
    | inl e ↦ inr (
      _,
      record {
        result = refl;
        same = refl;
        left = concat (keep_if (is_kept trim_space) (line ∷ [])) ++ [];
        text =
            rw e (sym (append-nil (add_kept trim_space head line)) ∙ kept-add_kept head line [] []);
        stripped = record {
          preamble = line ∷ [];
          others = [];
          split = refl;
          all = (e, tt);
          stops = tt;
          kept = refl;
        };
      },
    )
    | inr e ↦ inr (
      _,
      record {
        result = refl;
        same = refl;
        left = line ++ [];
        text = rw e (ap (λ t. head ++ t) (sym (append-nil line)));
        stripped = record {
          preamble = [];
          others = line ∷ [];
          split = refl;
          all = tt;
          stops = e;
          kept = refl;
        };
      },
    )
  ]
  strip_lines-Loop broken head line (next ∷ rest) =
      elim (Bool-cases (is_preamble trim_space line)) [
        | inl e ↦ elim (strip_lines-Loop broken (add_kept trim_space head line) next rest) [
          | inl failed ↦ inl (rw (e, strip_lines) failed)
          | inr (r, k) ↦ inr (
            r,
            record {
              result = rw (e, strip_lines) k.result;
              same = k.same;
              left =
                  concat (keep_if (is_kept trim_space) (line ∷ k.stripped.preamble))
                  ++ concat k.stripped.others;
              text =
                  k.text
                  ∙ ap (λ t. add_kept trim_space head line ++ t) k.stripped.kept
                  ∙ kept-add_kept head line k.stripped.preamble (concat k.stripped.others);
              stripped = record {
                preamble = line ∷ k.stripped.preamble;
                others = k.stripped.others;
                split = ap (λ ls. line ∷ ls) k.stripped.split;
                all = (e, k.stripped.all);
                stops = k.stripped.stops;
                kept = refl;
              };
            },
          )
        ]
        | inr e ↦ inr (
          _,
          record {
            result = rw (e, strip_lines) refl;
            same = refl;
            left = line ++ concat (next ∷ rest);
            text = append_assoc head line (concat (next ∷ rest));
            stripped = record {
              preamble = [];
              others = line ∷ (next ∷ rest);
              split = refl;
              all = tt;
              stops = e;
              kept = refl;
            };
          },
        )
      ]

  -- A dump whose reading fails within the preamble is refused. Any other is left as it is but for the
  -- lines of the setting in its preamble, the lines before the first that is not one of comments,
  -- session settings or blanks, and it still ends in the error that its reading ends in.
  pub strip_incompatible_settings-Stripped :
      (dump : Reader)
      → ((strip_incompatible_settings trim_space dump ≡ none) × (dump.broken ≡ true))
        ⊎ ((r : Reader) × (strip_incompatible_settings trim_space dump ≡ some r)
            × (r.broken ≡ dump.broken)
            × Stripped (lines_of dump.text) r.text
            × (dump.text ≡ concat (lines_of dump.text)))
  unfolding strip_incompatible_settings
  strip_incompatible_settings-Stripped dump =
      elim (strip_lines-Loop dump.broken [] (read_lines dump.text).0 (read_lines dump.text).1) [
        | inl failed ↦ inl failed
        | inr (r, k) ↦
            inr (r, k.result, k.same, rw k.text k.stripped, sym (concat-lines_of dump.text))
      ]
