-- ===== src/Migration/Copies.antt =====
-- What the copy of internal/storage/migrate.go leaves in the bucket.
use fusion_index.Prelude.{
  ℕ, suc, ◌+◌, ◌≡◌, ◌≢◌, ◌⊎◌, inl, inr, refl, sym, ap, ◌∙◌, Bool, true, false, Option, none, some,
  is_some, List, [], ◌∷◌, Text, arith, All, All-map, All-of_each, All-zip, All-with, length,
  text_eq, text_eq_iff, Bool-cases,
}
use mathlib.Core.Path.{subst}
use fusion_index.Session.{Fate, served, refused, lost, next_fate, Object, find_object, put_object}
use fusion_index.Session.Objects.{find_object-put_object_self, find_object-put_object_ne}
use fusion_index.Migration.{
  Bucket, head_fate, head_object, put_copy, copy_fate, copy_object, Migrated, done, stopped,
  copy_paths,
}

abbrev pub content_of : Option Object → Option Text
content_of none = none
content_of (some o) = some o.content

module _ (old_key new_key : Text → Text) where
  -- The ways in which one path is dealt with: skipped, copied, or given up.
  copy_paths_cases :
      (P : Migrated × Bucket → Type 0) (p : Text) (ps : List Text) (c s : ℕ) (b : Bucket)
      → ((fs : List Fate)
          → is_some (find_object (new_key p) b.objects) ≡ true
          → P (copy_paths old_key new_key ps c (suc s) (record b { fates = fs })))
      → ((fs : List Fate) (o : Object)
          → find_object (old_key p) b.objects ≡ some o
          → P (
              copy_paths old_key new_key ps
                (suc c)
                s
                (record { objects = put_object (new_key p) o.content b.objects; fates = fs })))
      → ((fs : List Fate) (o : Object)
          → find_object (old_key p) b.objects ≡ some o
          → P (
            stopped c s,
            record { objects = put_object (new_key p) o.content b.objects; fates = fs },
          ))
      → ((fs : List Fate) → P (stopped c s, record b { fates = fs }))
      → P (copy_paths old_key new_key (p ∷ ps) c s b)
  unfolding copy_paths head_object head_fate copy_object copy_fate put_copy next_fate
  copy_paths_cases P p ps c s b skip copy lose stop =
      headed (next_fate b.fates).0 (next_fate b.fates).1 _ refl
    where
      copied :
          (f : Fate) (fs : List Fate) (o : Option Object)
          → find_object (old_key p) b.objects ≡ o
          → P (
              let (success, objects) = copy_fate f o (new_key p) b.objects in
              elim success [
                | true ↦
                    copy_paths old_key new_key ps
                      (suc c)
                      s
                      (record { objects = objects; fates = fs })
                | false ↦ (stopped c s, record { objects = objects; fates = fs })
              ])
      copied served fs (some o) e = copy fs o e
      copied served fs none e = stop fs
      copied refused fs o e = stop fs
      copied (lost n) fs (some o) e = lose fs o e
      copied (lost n) fs none e = stop fs

      tried :
          (fs : List Fate)
          → P (
              let (success, b2) = copy_object (old_key p) (new_key p) (record b { fates = fs }) in
              elim success [
                | true ↦ copy_paths old_key new_key ps (suc c) s b2
                | false ↦ (stopped c s, b2)
              ])
      tried fs = copied (next_fate fs).0 (next_fate fs).1 _ refl

      headed :
          (f : Fate) (fs : List Fate) (there : Bool)
          → head_fate f (new_key p) b.objects ≡ there
          → P (elim there [
            | true ↦ copy_paths old_key new_key ps c (suc s) (record b { fates = fs })
            | false ↦
                let (success, b2) = copy_object (old_key p) (new_key p) (record b { fates = fs }) in
                elim success [
                  | true ↦ copy_paths old_key new_key ps (suc c) s b2
                  | false ↦ (stopped c s, b2)
                ]
          ])
      headed served fs true e = skip fs e
      headed refused fs true e = cc
      headed (lost n) fs true e = cc
      headed f fs false e = tried fs

  -- What every copy keeps, the loop keeps, whichever of its calls fail.
  pub copy_paths-keeps :
      (I : List Object → Type 0) (ps : List Text)
      → All
          (λ p.
            (os : List Object) (o : Object)
            → I os
            → find_object (old_key p) os ≡ some o
            → I (put_object (new_key p) o.content os))
          ps
      → (c s : ℕ) (b : Bucket) → I b.objects
      → I (copy_paths old_key new_key ps c s b).1.objects
  unfolding copy_paths
  copy_paths-keeps I [] h c s b i = i
  copy_paths-keeps I (p ∷ ps) (h, hs) c s b i =
      copy_paths_cases (λ r. I r.1.objects) p ps c s b
        (λ fs there. copy_paths-keeps I ps hs c (suc s) _ i)
        (λ fs o found. copy_paths-keeps I ps hs (suc c) s _ (h b.objects o i found))
        (λ fs o found. h b.objects o i found) (λ fs. i)

  differ : true ≡ false → ⊥
  differ e = cc

  pub put-present :
      (k key content : Text) (os : List Object)
      → is_some (find_object k os) ≡ true
      → is_some (find_object k (put_object key content os)) ≡ true
  put-present k key content os h = elim (Bool-cases (text_eq key k)) [
    | inl same ↦
        let e = (text_eq_iff key k).0 same in
        ap (λ x. is_some (find_object x (put_object key content os))) (sym e)
        ∙ ap is_some (find_object-put_object_self key content os)
    | inr other ↦
        ap is_some (
          find_object-put_object_ne key k content os
            (λ e. differ (sym ((text_eq_iff key k).1 e) ∙ other)))
        ∙ h
  ]

  -- Where the loop ends without an error, each path is present under its new key, and is counted.
  abbrev pub Complete : List Text → ℕ → Migrated × Bucket → Type 0
  Complete ps n (done c s, b) =
      All (λ p. is_some (find_object (new_key p) b.objects) ≡ true) ps × (c + s ≡ n)
  Complete ps n (stopped c s, b) = Unit

  one_more :
      (p : Text) (ps : List Text) (m n : ℕ) (r : Migrated × Bucket)
      → m ≡ n
      → Complete ps m r
      → is_some (find_object (new_key p) r.1.objects) ≡ true
      → Complete (p ∷ ps) n r
  one_more p ps m n (done c s, b) e (h, k) there = ((there, h), k ∙ e)
  one_more p ps m n (stopped c s, b) e h there = tt

  stays :
      (k : Text) (ps : List Text) (c s : ℕ) (b : Bucket)
      → is_some (find_object k b.objects) ≡ true
      → is_some (find_object k (copy_paths old_key new_key ps c s b).1.objects) ≡ true
  stays k ps =
      copy_paths-keeps (λ os. is_some (find_object k os) ≡ true) ps
        (All-of_each (λ p os o i _. put-present k (new_key p) o.content os i) ps)

  pub copy_paths-Complete :
      (ps : List Text) (c s : ℕ) (b : Bucket)
      → Complete ps (c + s + length ps) (copy_paths old_key new_key ps c s b)
  unfolding copy_paths
  copy_paths-Complete [] c s b = (tt, omega arith)
  copy_paths-Complete (p ∷ ps) c s b =
      copy_paths_cases (Complete (p ∷ ps) (c + s + length (p ∷ ps))) p ps c s b
        (λ fs there.
          one_more p ps _ _ _ (omega arith) (copy_paths-Complete ps c (suc s) _)
            (stays (new_key p) ps c (suc s) _ there))
        (λ fs o found. one_more p ps _ _ _ (omega arith) (copy_paths-Complete ps (suc c) s _) (
          stays (new_key p) ps (suc c) s _
            (ap is_some (find_object-put_object_self (new_key p) o.content b.objects))))
        (λ fs o found. tt) (λ fs. tt)

  -- Against the objects at the start: an old object is as it was, and a new one, where it is there, has
  -- the content of the old one.
  pub record IsCopied (start os : List Object) (q : Text) : Type 0 where
    pub old : find_object (old_key q) os ≡ find_object (old_key q) start
    pub new :
        (find_object (new_key q) os ≡ none)
        ⊎ (content_of (find_object (new_key q) os) ≡ content_of (find_object (old_key q) start))

  put-IsCopied :
      (start : List Object) (p q : Text) (os : List Object) (o : Object)
      → (new_key p ≡ new_key q → p ≡ q)
      → new_key p ≢ old_key q
      → IsCopied start os p
      → find_object (old_key p) os ≡ some o
      → IsCopied start os q
      → IsCopied start (put_object (new_key p) o.content os) q
  put-IsCopied start p q os o injective apart before found h = record {
    old = find_object-put_object_ne (new_key p) (old_key q) o.content os apart ∙ h.old;
    new = elim (Bool-cases (text_eq (new_key p) (new_key q))) [
      | inl same ↦ inr (mine (injective ((text_eq_iff (new_key p) (new_key q)).0 same)))
      | inr other ↦
          subst (λ x. (x ≡ none) ⊎ (content_of x ≡ content_of (find_object (old_key q) start)))
            (sym (
              find_object-put_object_ne (new_key p) (new_key q) o.content os
                (λ e. differ (sym ((text_eq_iff (new_key p) (new_key q)).1 e) ∙ other))))
            h.new
    ];
  }
    where
      mine :
          p ≡ q
          → content_of (find_object (new_key q) (put_object (new_key p) o.content os))
            ≡ content_of (find_object (old_key q) start)
      mine e =
          subst
            (λ x.
              content_of (find_object (new_key x) (put_object (new_key p) o.content os))
              ≡ content_of (find_object (old_key x) start))
            e
            (ap content_of (find_object-put_object_self (new_key p) o.content os)
              ∙ sym (ap content_of found)
              ∙ ap content_of before.old)

  -- Of the paths, no new key is an old one, and different ones have different new keys.
  abbrev pub Apart : List Text → Type 0
  Apart paths =
      All (λ p. All (λ q. (new_key p ≢ old_key q) × (new_key p ≡ new_key q → p ≡ q)) paths) paths

  pub copy_paths-IsCopied :
      (start : List Object) (paths : List Text)
      → Apart paths
      → (c s : ℕ) (b : Bucket) → All (IsCopied start b.objects) paths
      → All (IsCopied start (copy_paths old_key new_key paths c s b).1.objects) paths
  copy_paths-IsCopied start paths apart =
      copy_paths-keeps (λ os. All (IsCopied start os) paths) paths
        (All-with (λ p. All (λ q. (new_key p ≢ old_key q) × (new_key p ≡ new_key q → p ≡ q)) paths)
          paths
          (λ p here away os o h found.
            All-map
              (λ q (k, (ne, injective)).
                put-IsCopied start p q os o injective ne (here (IsCopied start os) h) found k)
              paths
              (All-zip (IsCopied start os)
                (λ q. (new_key p ≢ old_key q) × (new_key p ≡ new_key q → p ≡ q)) paths h away))
          apart)
