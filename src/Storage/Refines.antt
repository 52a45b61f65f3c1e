-- ===== src/Storage/Refines.antt =====
-- The backends of internal/storage beside the storage that the handlers are modelled on: a map of
-- objects by their paths.
use fusion_index.Prelude.{
  ◌≡◌, ◌≢◌, refl, sym, ap, ◌∙◌, ◌⊎◌, inl, inr, Option, none, some, List, [], ◌∷◌, Text, arith,
  length, take, find, keep_if, text_eq, text_eq_iff, Bool-cases,
}
use mathlib.Core.Path.{subst}
use fusion_index.Db.{DbResult, ok}
use fusion_index.Session.{
  Fate, served, refused, lost, Object, World, next_fate, find_object, without, put_object, store,
  retrieve, retrieved, remove, remove_fate,
}
use fusion_index.Session.Objects.{
  find_object-without, find_object-put_object_self, find_object-put_object_ne,
}
use fusion_index.Migration.Copies.{content_of}
use fusion_index.Storage.{Storage, delete_fate, delete_object}

-- The calls of storage, and their answers.
pub data StorageOp : Type 0 where
  put : Text → Text → StorageOp
  get : Text → StorageOp
  del : Text → StorageOp

pub data Answer : Type 0 where
  stored : DbResult Text → Answer
  read : DbResult Text → Answer
  deleted : DbResult (Unit {0}) → Answer

unfoldable pub perform_op : Storage → StorageOp → World → Answer × World
perform_op s (put path content) w = let (r, w') = s.store_at path content w in (stored r, w')
perform_op s (get path) w = let (r, w') = s.retrieve_at path w in (read r, w')
perform_op s (del path) w = let (r, w') = s.delete_at path w in (deleted r, w')

unfoldable pub perform_all : Storage → List StorageOp → World → List Answer × World
unfolding perform_op
perform_all s [] w = ([], w)
perform_all s (op ∷ ops) w =
    let (answer, w1) = perform_op s op w in
    let (answers, w2) = perform_all s ops w1 in (answer ∷ answers, w2)

-- The storage that the handlers are modelled on.
abbrev pub object_storage : Storage
object_storage = record { store_at = store; retrieve_at = retrieve; delete_at = delete_object }

-- A best-effort delete is a delete whose answer is dropped.
remove-delete_object : (p : Text) (w : World) → remove p w ≡ (delete_object p w).1
unfolding remove remove_fate delete_object delete_fate
remove-delete_object p w = go (next_fate w.storage_fates).0
  where
    go :
        (f : Fate)
        → remove_fate f p (record w { storage_fates = (next_fate w.storage_fates).1 })
          ≡ (delete_fate f p (record w { storage_fates = (next_fate w.storage_fates).1 })).1
    go served = refl
    go refused = refl
    go (lost n) = refl

find_object-without_self : (p : Text) (os : List Object) → find_object p (without p os) ≡ none
unfolding find_object without find keep_if
find_object-without_self p [] = refl
find_object-without_self p (o ∷ os) = ground (arith, find_object-without_self p os)

-- The path of a call.
abbrev pub path_of_op : StorageOp → Text
path_of_op (put path content) = path
path_of_op (get path) = path
path_of_op (del path) = path

-- Under its key, each path in use has the same content, or none.
abbrev pub SameContents : (Text → Type 0) → (Text → Text) → List Object → List Object → Type 0
SameContents Used key us ws =
    (p : Text) → Used p → content_of (find_object (key p) us) ≡ content_of (find_object p ws)

module _ (Used : Text → Type 0) (key : Text → Text)
    (injective : (p q : Text) → Used p → Used q → key p ≡ key q → p ≡ q) where
  same_or_not : (p q : Text) → (p ≡ q) ⊎ (p ≢ q)
  same_or_not p q = elim (Bool-cases (text_eq p q)) [
    | inl e ↦ inl ((text_eq_iff p q).0 e)
    | inr e ↦ inr (λ same. cc ((text_eq_iff p q).1 same, e))
  ]

  pub put-SameContents :
      (p c : Text) (us ws : List Object)
      → Used p
      → SameContents Used key us ws
      → SameContents Used key (put_object (key p) c us) (put_object p c ws)
  put-SameContents p c us ws used h q uses = elim (same_or_not p q) [
    | inl e ↦
        subst
          (λ r.
            content_of (find_object (key r) (put_object (key p) c us))
            ≡ content_of (find_object r (put_object p c ws)))
          e
          (ap content_of (find_object-put_object_self (key p) c us)
            ∙ sym (ap content_of (find_object-put_object_self p c ws)))
    | inr other ↦
        ap content_of
          (find_object-put_object_ne (key p) (key q) c us (λ e. other (injective p q used uses e)))
        ∙ h q uses
        ∙ sym (ap content_of (find_object-put_object_ne p q c ws other))
  ]

  pub without-SameContents :
      (p : Text) (us ws : List Object)
      → Used p
      → SameContents Used key us ws
      → SameContents Used key (without (key p) us) (without p ws)
  without-SameContents p us ws used h q uses = elim (same_or_not p q) [
    | inl e ↦
        subst
          (λ r.
            content_of (find_object (key r) (without (key p) us))
            ≡ content_of (find_object r (without p ws)))
          e
          (ap content_of (find_object-without_self (key p) us)
            ∙ sym (ap content_of (find_object-without_self p ws)))
    | inr other ↦
        ap content_of
          (find_object-without (key p) (key q) us (λ e. other (injective p q used uses e)))
        ∙ h q uses
        ∙ sym (ap content_of (find_object-without p q ws other))
  ]

pub read_same : (x y : Option Object) → content_of x ≡ content_of y → retrieved x ≡ retrieved y
unfolding retrieved
read_same none none h = refl
read_same none (some o) h = cc
read_same (some o) none h = cc
read_same (some o) (some k) h = let e : o.content ≡ k.content = cc h in ap ok e

pub take-length : (c : Text) → take (length c) c ≡ c
take-length [] = refl
take-length (x ∷ c) = ap (λ s. x ∷ s) (take-length c)

-- A put that keeps all or nothing has the fate of one that writes everything before its answer is lost.
unfoldable pub whole_fate : StorageOp → Fate → Fate
whole_fate (put path content) (lost n) = lost (length content)
whole_fate (put path content) served = served
whole_fate (put path content) refused = refused
whole_fate (get path) f = f
whole_fate (del path) f = f

abbrev pub same_fate : StorageOp → Fate → Fate
same_fate op f = f

unfoldable pub fates_of : (StorageOp → Fate → Fate) → List StorageOp → List Fate → List Fate
fates_of fit [] fs = fs
fates_of fit (op ∷ ops) [] = []
fates_of fit (op ∷ ops) (f ∷ fs) = fit op f ∷ fates_of fit ops fs

module _ (Used : Text → Type 0) (key : Text → Text) where
  -- The answers are the same, and each path in use has the same content under its key.
  abbrev pub Agrees : {A : Type 0} → A × World → A × World → Type 0
  Agrees r s = (r.0 ≡ s.0) × SameContents Used key r.1.objects s.1.objects

  -- One call at a path in use, with what it leaves of the fates.
  abbrev pub Steps : Storage → (StorageOp → Fate → Fate) → StorageOp → Fate → Type 0
  Steps concrete fit op f =
      (u w : World) (fs gs : List Fate)
      → Used (path_of_op op)
      → SameContents Used key u.objects w.objects
      → Agrees (perform_op concrete op (record u { storage_fates = f ∷ fs }))
          (perform_op object_storage op (record w { storage_fates = fit op f ∷ gs }))
        × ((perform_op concrete op (record u { storage_fates = f ∷ fs })).1.storage_fates ≡ fs)
        × ((perform_op object_storage op
              (record w { storage_fates = fit op f ∷ gs })).1.storage_fates
            ≡ gs)
