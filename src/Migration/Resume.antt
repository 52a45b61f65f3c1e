-- ===== src/Migration/Resume.antt =====
-- The copy of internal/storage/migrate.go, interrupted and run again.
use fusion_index.Prelude.{
  ℕ, suc, ◌+◌, ◌≡◌, inl, inr, refl, sym, ap, ◌∙◌, true, false, Option, none, some, is_some, List,
  [], ◌∷◌, Text, arith, All, All-map, All-zip, length, Bool-cases,
}
use mathlib.Core.Path.{subst}
use mathlib.Core.Bool.{false≢true}
use fusion_index.Session.{Fate, served, Object, find_object, put_object, next_fate}
use fusion_index.Migration.{
  Bucket, trim, join_prefix, head_fate, head_object, put_copy, copy_fate, copy_object, Migrated,
  done, stopped, copy_paths, migrate_prefix,
}
use fusion_index.Migration.Copies.{
  Apart, IsCopied, Complete, copy_paths-IsCopied, copy_paths-Complete, put-present, content_of,
}

-- The key of a path under a prefix.
abbrev pub key_under : (Text → Text → Text) → Text → Text → Text
key_under join prefix = join_prefix join (trim b'/' prefix)

-- Runs one after the other, each with what becomes of its own calls; `none` of them has ended yet.
unfoldable pub run_all :
    (Text → Text → Text) → Text → Text → List Text → List (List Fate) → List Object → List Object
run_all join old_prefix new_prefix paths [] objects = objects
run_all join old_prefix new_prefix paths (fates ∷ runs) objects =
    run_all join old_prefix new_prefix paths runs
      (migrate_prefix join old_prefix new_prefix paths
        (record { objects = objects; fates = fates })).1.objects

module _ (join : Text → Text → Text) (old_prefix new_prefix : Text) (paths : List Text) where
  abbrev old_key : Text → Text
  old_key = key_under join old_prefix

  abbrev new_key : Text → Text
  new_key = key_under join new_prefix

  -- From a bucket with no object under the new prefix, and keys that the new prefix keeps apart:
  -- after any number of runs, whichever calls of each fail, every old object is as it was, and each
  -- new object that is there has the content of its old one.
  run_all-IsCopied :
      (runs : List (List Fate)) (start : List Object)
      → Apart old_key new_key paths
      → All (λ q. find_object (new_key q) start ≡ none) paths
      → All
          (IsCopied old_key new_key start (run_all join old_prefix new_prefix paths runs start))
          paths
  unfolding run_all migrate_prefix
  run_all-IsCopied runs start apart fresh =
      go runs start (All-map (λ q e. record { old = refl; new = inl e }) paths fresh)
    where
      go :
          (runs : List (List Fate)) (os : List Object)
          → All (IsCopied old_key new_key start os) paths
          → All
              (IsCopied old_key new_key start (run_all join old_prefix new_prefix paths runs os))
              paths
      go [] os h = h
      go (fates ∷ runs) os h = go runs _ (
          copy_paths-IsCopied old_key new_key start paths apart 0 0
            (record { objects = os; fates = fates }) h)

  -- A run that ends without an error has an object under the new key of every path, and counts each
  -- path once, as copied or as skipped.
  pub migrate_prefix-Complete :
      (b : Bucket)
      → Complete old_key new_key paths
          (length paths)
          (migrate_prefix join old_prefix new_prefix paths b)
  unfolding migrate_prefix
  migrate_prefix-Complete b =
      subst (λ n. Complete old_key new_key paths n (copy_paths old_key new_key paths 0 0 b))
        (counted (length paths)) (copy_paths-Complete old_key new_key paths 0 0 b)
    where
      counted : (n : ℕ) → 0 + 0 + n ≡ n
      counted n = omega arith

module _ (old_key new_key : Text → Text) where
  abbrev Ends : Migrated × Bucket → Type 0
  Ends r = (copied : ℕ) × (skipped : ℕ) × (r.0 ≡ done copied skipped)

  abbrev Present : List Object → Text → Type 0
  Present os p = is_some (find_object (old_key p) os) ≡ true

  -- Where no call fails and the old objects are there, the loop ends without an error.
  copy_paths-Ends :
      (ps : List Text) (c s : ℕ) (os : List Object)
      → All (Present os) ps
      → Ends (copy_paths old_key new_key ps c s (record { objects = os; fates = [] }))
  unfolding copy_paths head_object head_fate copy_object copy_fate put_copy next_fate
  copy_paths-Ends [] c s os h = (c, s, refl)
  copy_paths-Ends (p ∷ ps) c s os (h, hs) =
      elim (Bool-cases (is_some (find_object (new_key p) os))) [
        | inl there ↦ rw (there, copy_paths) (copy_paths-Ends ps c (suc s) os hs)
        | inr absent ↦
            rw (absent, copy_paths)
              (copied (find_object (old_key p) os) refl (λ o.
                copy_paths-Ends ps (suc c) s (put_object (new_key p) o.content os) (
                  All-map
                    (λ q k. put-present old_key new_key (old_key q) (new_key p) o.content os k) ps
                    hs)))
      ]
    where
      copied :
          (o : Option Object)
          → find_object (old_key p) os ≡ o
          → ((x : Object)
              → Ends (
                  copy_paths old_key new_key ps
                    (suc c)
                    s
                    (record { objects = put_object (new_key p) x.content os; fates = [] })))
          → Ends (
              let (success, objects) = copy_fate served o (new_key p) os in
              elim success [
                | true ↦
                    copy_paths old_key new_key ps
                      (suc c)
                      s
                      (record { objects = objects; fates = [] })
                | false ↦ (stopped c s, record { objects = objects; fates = [] })
              ])
      copied none e rest = absurd (false≢true (sym (ap is_some e) ∙ h))
      copied (some o) e rest = rest o

is_some-found : {A : Type 0} (o : Option A) → is_some o ≡ true → (a : A) × (o ≡ some a)
is_some-found none h = cc
is_some-found (some a) h = (a, refl)

none-ne-some : (m : Object) → none ≡ some m → ⊥
none-ne-some m e = cc

content-same : (m o : Object) → some m.content ≡ some o.content → m.content ≡ o.content
content-same m o e = cc

-- The new object of a path has the content of the old one at the start.
pub record HasMoved (old_key new_key : Text → Text) (start os : List Object) (q : Text)
    : Type 0 where
  pub old : Object
  pub new : Object
  pub before : find_object (old_key q) start ≡ some old
  pub after : find_object (new_key q) os ≡ some new
  pub same : new.content ≡ old.content

abbrev no_fates : List Fate
no_fates = []

-- From a bucket that has every old object and none under a new key, and where no new key is an old
-- one or that of another path: however many runs are interrupted, and wherever, a further run in
-- which no call fails ends without an error, and then the new object of every path has the content of
-- the old one.
pub run_all-HasMoved :
    (join : Text → Text → Text) (old_prefix new_prefix : Text) (paths : List Text)
    (runs : List (List Fate)) (start : List Object)
    → Apart (key_under join old_prefix) (key_under join new_prefix) paths
    → All (λ q. find_object (key_under join new_prefix q) start ≡ none) paths
    → All (λ q. is_some (find_object (key_under join old_prefix q) start) ≡ true) paths
    → (let r = migrate_prefix join old_prefix new_prefix paths (record {
      objects = run_all join old_prefix new_prefix paths runs start;
      fates = no_fates;
    }) in
        ((copied : ℕ) × (skipped : ℕ) × (r.0 ≡ done copied skipped))
        × All
            (HasMoved (key_under join old_prefix) (key_under join new_prefix) start r.1.objects)
            paths)
unfolding migrate_prefix
run_all-HasMoved join old_prefix new_prefix paths runs start apart fresh there =
    let copied = run_all-IsCopied join old_prefix new_prefix paths runs start apart fresh in
    let b : Bucket = record {
      objects = run_all join old_prefix new_prefix paths runs start;
      fates = no_fates;
    } in
    let ends = copy_paths-Ends old_key new_key paths 0 0 b.objects (
      All-map (λ q (k, h). ap is_some k.old ∙ h) paths
        (All-zip (IsCopied old_key new_key start b.objects) _ paths copied there)) in
    (
      ends,
      All-map (λ q (k, (h, n)). moved q _ k h n) paths
          (All-zip
            (IsCopied old_key new_key start (copy_paths old_key new_key paths 0 0 b).1.objects) _
            paths (copy_paths-IsCopied old_key new_key start paths apart 0 0 b copied)
            (All-zip (λ q. is_some (find_object (old_key q) start) ≡ true) _ paths there
              (all_there _ _ _ _ ends.2 (copy_paths-Complete old_key new_key paths 0 0 b)))),
    )
  where
    old_key : Text → Text
    old_key = key_under join old_prefix

    new_key : Text → Text
    new_key = key_under join new_prefix

    all_there :
        (n c s : ℕ) (r : Migrated × Bucket)
        → r.0 ≡ done c s
        → Complete old_key new_key paths n r
        → All (λ p. is_some (find_object (new_key p) r.1.objects) ≡ true) paths
    all_there n _ _ (done c s, v) e h = h.0
    all_there n _ _ (stopped c s, v) e h = cc

    moved :
        (q : Text) (os : List Object)
        → IsCopied old_key new_key start os q
        → is_some (find_object (old_key q) start) ≡ true
        → is_some (find_object (new_key q) os) ≡ true
        → HasMoved old_key new_key start os q
    moved q os k h n =
        let (o, before) = is_some-found (find_object (old_key q) start) h in
        let (m, after) = is_some-found (find_object (new_key q) os) n in
        record {
          old = o;
          new = m;
          before = before;
          after = after;
          same = elim k.new [
            | inl absent ↦ absurd (none-ne-some m (sym absent ∙ after))
            | inr same ↦ content-same m o (ap content_of (sym after) ∙ same ∙ ap content_of before)
          ];
        }
