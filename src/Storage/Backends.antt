-- ===== src/Storage/Backends.antt =====
-- Every run of calls of a backend of internal/storage is a run of the storage that the handlers are
-- modelled on.
use fusion_index.Prelude.{
  All, ◌≡◌, refl, sym, ap, ◌∙◌, Bool, true, false, none, some, List, [], ◌∷◌, Text, codes, text_eq,
  take, if◌then◌else◌,
}
use mathlib.Core.Path.{subst}
use fusion_index.Config.{Config}
use fusion_index.Session.{
  Fate, served, refused, lost, World, next_fate, find_object, store, store_fate, retrieve,
  retrieve_fate,
}
use fusion_index.Storage.{
  Storage, delete_fate, delete_object, put_fate, put_whole, suggested, S3Storage, new_s3_storage,
  s3_key, s3_store, s3_retrieve, s3_delete, s3_storage, FilesystemStorage, fs_resolve, fs_store,
  fs_retrieve, fs_delete, filesystem_storage, build_storage,
}
use fusion_index.Storage.Refines.{
  StorageOp, path_of_op, put, get, del, Answer, read, perform_op, perform_all, object_storage,
  SameContents, put-SameContents, without-SameContents, read_same, take-length, whole_fate,
  same_fate, fates_of, Agrees, Steps,
}

module _ (Used : Text → Type 0) (join : Text → Text → Text) (s : S3Storage)
    (injective : (p q : Text) → Used p → Used q → s3_key join s p ≡ s3_key join s q → p ≡ q) where
  abbrev bucket_key : Text → Text
  bucket_key = s3_key join s

  pub s3-Steps :
      (op : StorageOp) (f : Fate) → Steps Used bucket_key (s3_storage join s) whole_fate op f
  unfolding s3_key perform_op s3_storage s3_store s3_retrieve s3_delete put_whole put_fate suggested
      delete_object delete_fate store store_fate retrieve retrieve_fate next_fate whole_fate
  s3-Steps (put p c) served u w fs gs used h = (
    (refl, put-SameContents Used bucket_key injective p c u.objects w.objects used h),
    refl,
    refl,
  )
  s3-Steps (put p c) refused u w fs gs used h = ((refl, h), refl, refl)
  s3-Steps (put p c) (lost n) u w fs gs used h = (
    (
      refl,
      rw (take-length c)
          (put-SameContents Used bucket_key injective p c u.objects w.objects used h),
    ),
    refl,
    refl,
  )
  s3-Steps (get p) served u w fs gs used h = (
    (
      ap read
          (read_same (find_object (bucket_key p) u.objects) (find_object p w.objects) (h p used)),
      h,
    ),
    refl,
    refl,
  )
  s3-Steps (get p) refused u w fs gs used h = ((refl, h), refl, refl)
  s3-Steps (get p) (lost n) u w fs gs used h = ((refl, h), refl, refl)
  s3-Steps (del p) served u w fs gs used h = (
    (refl, without-SameContents Used bucket_key injective p u.objects w.objects used h),
    refl,
    refl,
  )
  s3-Steps (del p) refused u w fs gs used h = ((refl, h), refl, refl)
  s3-Steps (del p) (lost n) u w fs gs used h = (
    (refl, without-SameContents Used bucket_key injective p u.objects w.objects used h),
    refl,
    refl,
  )

  pub s3_idle :
      (op : StorageOp) (u : World)
      → perform_op (s3_storage join s) op (record u { storage_fates = [] })
        ≡ perform_op (s3_storage join s) op (record u { storage_fates = served ∷ [] })
  unfolding perform_op s3_storage s3_store s3_retrieve s3_delete put_whole retrieve delete_object
      next_fate
  s3_idle (put p c) u = refl
  s3_idle (get p) u = refl
  s3_idle (del p) u = refl

s3_served : (op : StorageOp) → whole_fate op served ≡ served
unfolding whole_fate
s3_served (put p c) = refl
s3_served (get p) = refl
s3_served (del p) = refl

module _ (Used : Text → Type 0) (file_join : Text → Text → Text) (s : FilesystemStorage)
    (injective : (p q : Text)
      → Used p
      → Used q
      → fs_resolve file_join s p ≡ fs_resolve file_join s q
      → p ≡ q) where
  abbrev file_key : Text → Text
  file_key = fs_resolve file_join s

  pub fs-Steps :
      (op : StorageOp) (f : Fate)
      → Steps Used file_key (filesystem_storage file_join s) same_fate op f
  unfolding fs_resolve perform_op filesystem_storage fs_store fs_retrieve fs_delete suggested
      delete_object delete_fate store store_fate retrieve retrieve_fate next_fate
  fs-Steps (put p c) served u w fs gs used h =
      ((refl, put-SameContents Used file_key injective p c u.objects w.objects used h), refl, refl)
  fs-Steps (put p c) refused u w fs gs used h = ((refl, h), refl, refl)
  fs-Steps (put p c) (lost n) u w fs gs used h = (
    (refl, put-SameContents Used file_key injective p (take n c) u.objects w.objects used h),
    refl,
    refl,
  )
  fs-Steps (get p) served u w fs gs used h = (
    (
      ap read (read_same (find_object (file_key p) u.objects) (find_object p w.objects) (h p used)),
      h,
    ),
    refl,
    refl,
  )
  fs-Steps (get p) refused u w fs gs used h = ((refl, h), refl, refl)
  fs-Steps (get p) (lost n) u w fs gs used h = ((refl, h), refl, refl)
  fs-Steps (del p) served u w fs gs used h = (
    (refl, without-SameContents Used file_key injective p u.objects w.objects used h),
    refl,
    refl,
  )
  fs-Steps (del p) refused u w fs gs used h = ((refl, h), refl, refl)
  fs-Steps (del p) (lost n) u w fs gs used h = (
    (refl, without-SameContents Used file_key injective p u.objects w.objects used h),
    refl,
    refl,
  )

  pub fs_idle :
      (op : StorageOp) (u : World)
      → perform_op (filesystem_storage file_join s) op (record u { storage_fates = [] })
        ≡ perform_op (filesystem_storage file_join s) op (record u { storage_fates = served ∷ [] })
  unfolding perform_op filesystem_storage fs_store fs_retrieve fs_delete store retrieve
      delete_object next_fate
  fs_idle (put p c) u = refl
  fs_idle (get p) u = refl
  fs_idle (del p) u = refl

module _ (Used : Text → Type 0) (key : Text → Text) (concrete : Storage)
    (fit : StorageOp → Fate → Fate)
    (steps : (op : StorageOp) (f : Fate) → Steps Used key concrete fit op f)
    (fit_served : (op : StorageOp) → fit op served ≡ served)
    (idle : (op : StorageOp) (u : World)
      → perform_op concrete op (record u { storage_fates = [] })
        ≡ perform_op concrete op (record u { storage_fates = served ∷ [] })) where
  fates_of-none : (ops : List StorageOp) → fates_of fit ops [] ≡ []
  unfolding fates_of
  fates_of-none [] = refl
  fates_of-none (op ∷ ops) = refl

  object_idle :
      (op : StorageOp) (w : World)
      → perform_op object_storage op (record w { storage_fates = [] })
        ≡ perform_op object_storage op (record w { storage_fates = served ∷ [] })
  unfolding perform_op store retrieve delete_object next_fate
  object_idle (put p c) w = refl
  object_idle (get p) w = refl
  object_idle (del p) w = refl

  -- One call, with what is left of the fates.
  abbrev Next : StorageOp → List StorageOp → World → World → Type 0
  Next op ops u w =
      Agrees Used key (perform_op concrete op u) (perform_op object_storage op w)
      × ((perform_op object_storage op w).1.storage_fates
          ≡ fates_of fit ops (perform_op concrete op u).1.storage_fates)

  any_fate-Next :
      (op : StorageOp) (ops : List StorageOp) (fs : List Fate) (u w : World)
      → Used (path_of_op op)
      → SameContents Used key u.objects w.objects
      → Next op ops
          (record u { storage_fates = fs })
          (record w { storage_fates = fates_of fit (op ∷ ops) fs })
  unfolding fates_of
  any_fate-Next op ops (f ∷ fs) u w used h =
      let (agrees, left, right) = steps op f u w fs (fates_of fit ops fs) used h in
      (agrees, right ∙ sym (ap (fates_of fit ops) left))
  any_fate-Next op ops [] u w used h =
      let (agrees, left, right) = steps op served u w [] [] used h in
      let object_step =
        object_idle op w
        ∙ ap (λ f. perform_op object_storage op (record w { storage_fates = f ∷ [] }))
            (sym (fit_served op)) in
      subst
        (λ (r : Answer × World).
          Agrees Used key r (perform_op object_storage op (record w { storage_fates = [] }))
          × ((perform_op object_storage op (record w { storage_fates = [] })).1.storage_fates
              ≡ fates_of fit ops r.1.storage_fates))
        (sym (idle op u))
        (subst
          (λ (t : Answer × World).
            Agrees Used key (perform_op concrete op (record u { storage_fates = served ∷ [] })) t
            × (t.1.storage_fates
                ≡ fates_of fit ops
                    (perform_op concrete op
                      (record u { storage_fates = served ∷ [] })).1.storage_fates))
          (sym object_step) (agrees, right ∙ sym (ap (fates_of fit ops) left ∙ fates_of-none ops)))

  pub perform_all-Agrees :
      (ops : List StorageOp) (u w : World)
      → All (λ op. Used (path_of_op op)) ops
      → SameContents Used key u.objects w.objects
      → w.storage_fates ≡ fates_of fit ops u.storage_fates
      → Agrees Used key (perform_all concrete ops u) (perform_all object_storage ops w)
  unfolding perform_all
  perform_all-Agrees [] u w used h e = (refl, h)
  perform_all-Agrees (op ∷ ops) u w (used, more) h e =
      let ((same, contents), left) =
        subst (λ fs. Next op ops u (record w { storage_fates = fs })) (sym e)
          (any_fate-Next op ops u.storage_fates u w used h) in
      let (answers, after) =
        perform_all-Agrees ops (perform_op concrete op u).1 (perform_op object_storage op w).1 more
          contents left in
      (λ i. same i ∷ answers i, after)

module _ (join file_join : Text → Text → Text) (cfg : Config) where
  -- The key that the configured backend keeps a path under.
  abbrev pub key_of : Text → Text
  key_of =
      if text_eq cfg.storage_backend (codes "S3")
      then s3_key join (new_s3_storage cfg.s3_prefix)
      else fs_resolve file_join (record { root = cfg.storage_fs_root })

  abbrev pub fit_of : StorageOp → Fate → Fate
  fit_of = if text_eq cfg.storage_backend (codes "S3") then whole_fate else same_fate

-- For paths in use that the configured backend keeps under different keys: any run of calls of it at these paths,
-- on a bucket or a file system with the same contents under their keys, gives the answers that the storage of
-- the handlers' model gives, with as many failing calls, and leaves the same contents.
pub build_storage-Agrees :
    (Used : Text → Type 0) (join file_join : Text → Text → Text) (has_client : Bool) (cfg : Config)
    (s : Storage) (ops : List StorageOp) (u w : World)
    → build_storage join file_join has_client cfg ≡ some s
    → ((p q : Text)
        → Used p
        → Used q
        → key_of join file_join cfg p ≡ key_of join file_join cfg q
        → p ≡ q)
    → All (λ op. Used (path_of_op op)) ops
    → SameContents Used (key_of join file_join cfg) u.objects w.objects
    → w.storage_fates ≡ fates_of (fit_of join file_join cfg) ops u.storage_fates
    → Agrees Used
        (key_of join file_join cfg)
        (perform_all s ops u)
        (perform_all object_storage ops w)
unfolding build_storage
build_storage-Agrees Used join file_join has_client cfg s ops u w built =
    choose (text_eq cfg.storage_backend (codes "S3")) has_client built
  where
    s3 : S3Storage
    s3 = new_s3_storage cfg.s3_prefix

    files : FilesystemStorage
    files = record { root = cfg.storage_fs_root }

    choose :
        (on_s3 ready : Bool)
        → (if on_s3
            then (if ready then some (s3_storage join s3) else none)
            else some (filesystem_storage file_join files))
          ≡ some s
        → (let key = if on_s3 then s3_key join s3 else fs_resolve file_join files in
            ((p q : Text) → Used p → Used q → key p ≡ key q → p ≡ q)
            → All (λ op. Used (path_of_op op)) ops
            → SameContents Used key u.objects w.objects
            → w.storage_fates
              ≡ fates_of (if on_s3 then whole_fate else same_fate) ops u.storage_fates
            → Agrees Used key (perform_all s ops u) (perform_all object_storage ops w))
    choose true true e injective used contents fates =
        let same : s3_storage join s3 ≡ s = cc e in
        subst
          (λ t.
            Agrees Used (s3_key join s3) (perform_all t ops u) (perform_all object_storage ops w))
          same
          (perform_all-Agrees Used (s3_key join s3) (s3_storage join s3) whole_fate
            (s3-Steps Used join s3 injective) s3_served (s3_idle Used join s3 injective) ops u w
            used contents fates)
    choose true false e injective used contents fates = cc e
    choose false ready e injective used contents fates =
        let same : filesystem_storage file_join files ≡ s = cc e in
        subst
          (λ t.
            Agrees Used (fs_resolve file_join files) (perform_all t ops u)
              (perform_all object_storage ops w))
          same
          (perform_all-Agrees Used (fs_resolve file_join files) (filesystem_storage file_join files)
            same_fate (fs-Steps Used file_join files injective) (λ op. refl)
            (fs_idle Used file_join files injective) ops u w used contents fates)
