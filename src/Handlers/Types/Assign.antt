-- ===== src/Handlers/Types/Assign.antt =====
-- The assignment of types to artifacts in internal/api/handlers/types.go.
use fusion_index.Prelude.{
  ℕ, ◌≡◌, refl, ap, ◌∙◌, Bool, true, false, ◌&&◌, not, some, Text, arith, All-of_each, exists,
  exists-keep_if, exists_cong, exists_false, if_cases, Bool-cases, inl, inr, ◌==◌, ==_refl,
}
use fusion_index.Db.{Db, TypeMap, ArtifactType, DbResult, ok, Statement}
use fusion_index.Db.Artifacts.{get_registry_artifact}
use fusion_index.Db.Types.{
  next_type_map, assigned, assign_artifact_type, remove_artifact_type, get_artifact_type,
  get_artifact_type_assignment,
}
use fusion_index.Session.{World, run}
use fusion_index.Handlers.{◌>>◌, ◌or◌, internal_error, not_found_or_internal, pure}
use fusion_index.Handlers.Params.{path_id}
use fusion_index.Handlers.Post.{Post, Post-continue, Post-step, Post-step_of, run-Post}
use fusion_index.Handlers.Types.{assign_type, unassign_type}

abbrev pub is_assigned : ℕ → ℕ → Db → Bool
is_assigned a t db = exists (assigned a t) db.type_maps

-- Every other pair of an artifact and a type is assigned in both or in neither.
abbrev pub OthersKept : ℕ → ℕ → Db → Db → Type 0
OthersKept a t db db' =
    (b u : ℕ) → (b == a && u == t) ≡ false → is_assigned b u db' ≡ is_assigned b u db

module _ (a t now : ℕ) where
  other_row :
      (m : TypeMap) (b u : ℕ)
      → m.artifact_id ≡ a
      → m.type_id ≡ t
      → (b == a && u == t) ≡ false
      → assigned b u m ≡ false
  unfolding assigned
  other_row m b u ha ht h = rw (ha, ht) (flip a t b u h)
    where
      flip : (a t b u : ℕ) → (b == a && u == t) ≡ false → (a == b && t == u) ≡ false
      flip a t b u h = ground arith

  new_row : (m : TypeMap) → m.artifact_id ≡ a → m.type_id ≡ t → assigned a t m ≡ true
  unfolding assigned
  new_row m ha ht = rw (ha, ht, ==_refl a, ==_refl t) refl

  abbrev row : Db → TypeMap
  row db = record { id = db.sequences.type_map; artifact_id = a; type_id = t; created_at = now }

  -- The row of the pair is there after a success, and no other pair is touched.
  record Assigned (db : Db) (r : DbResult (Unit {0}) × Db) : Type 0 where
    there : (x : Unit {0}) → r.0 ≡ ok x → is_assigned a t r.1 ≡ true
    others : OthersKept a t db r.1

  assign-Assigned : (db : Db) → Assigned db (assign_artifact_type a t now db)
  unfolding assign_artifact_type next_type_map exists
  assign-Assigned db = elim (Bool-cases (is_assigned a t db)) [
    | inl there ↦ rw there (record { there = λ x e. there; others = λ b u h. refl })
    | inr absent ↦ rw absent (
        if_cases (Assigned db)
          (not (exists (λ x. x.id == a) db.artifacts && exists (λ x. x.id == t) db.types)) _ _
          (record { there = λ x e. cc; others = λ b u h. refl })
          (record {
            there = λ x e. rw (new_row (row db) refl refl) refl;
            others = λ b u h. rw (other_row (row db) b u refl refl h) refl;
          }))
  ]

  remove-false : (db : Db) → is_assigned a t (remove_artifact_type a t now db).1 ≡ false
  unfolding remove_artifact_type
  remove-false db =
      exists-keep_if (assigned a t) (λ m. not (assigned a t m)) db.type_maps
      ∙ exists_false _ db.type_maps (All-of_each (λ m. never (assigned a t m)) db.type_maps)
    where
      never : (b : Bool) → (b && not b) ≡ false
      never true = refl
      never false = refl

  remove-others : (db : Db) → OthersKept a t db (remove_artifact_type a t now db).1
  unfolding remove_artifact_type assigned
  remove-others db b u h =
      exists-keep_if (assigned b u) (λ m. not (assigned a t m)) db.type_maps
      ∙ exists_cong _ _ db.type_maps (All-of_each (λ m. apart m b u h) db.type_maps)
    where
      apart :
          (m : TypeMap) (b u : ℕ)
          → (b == a && u == t) ≡ false
          → (assigned b u m && not (assigned a t m)) ≡ assigned b u m
      apart m b u h = ground (arith, h)

module _ (a t : ℕ) (w : World) where
  abbrev Kept : World → Type 0
  Kept u = OthersKept a t w.db u.db

  read_only :
      {A : Type 0} (look_up : Statement A)
      → ((now : ℕ) (d : Db) → (look_up now d).1 ≡ d)
      → (u : World) → Kept u
      → Post (λ _. Kept) Kept ((run look_up or not_found_or_internal) u)
  read_only look_up reads u k =
      let after : OthersKept a t w.db (look_up u.now u.db).1 =
        λ b c h. ap (is_assigned b c) (reads u.now u.db) ∙ k b c h in
      run-Post (λ _. Kept) Kept not_found_or_internal look_up u
        (λ fs. Post-step Kept Kept not_found_or_internal _ _ after after) (λ fs. k) (λ fs. after)

  assigning :
      (r : ArtifactType) (u : World)
      → Kept u
      → Post
          (λ _ v. (is_assigned a t v.db ≡ true) × Kept v)
          Kept
          (((run (assign_artifact_type a t) or internal_error) >> pure r) u)
  assigning r u k =
      let done = assign-Assigned a t u.now u.db in
      let after : OthersKept a t w.db (assign_artifact_type a t u.now u.db).1 =
        λ b c h. done.others b c h ∙ k b c h in
      Post-continue (λ _ v. (is_assigned a t v.db ≡ true) × Kept v)
        (λ _ v. (is_assigned a t v.db ≡ true) × Kept v) Kept _ _
        (run-Post (λ _ v. (is_assigned a t v.db ≡ true) × Kept v) Kept internal_error
          (assign_artifact_type a t) u
          (λ fs.
            Post-step_of (λ _ v. (is_assigned a t v.db ≡ true) × Kept v) Kept internal_error _ _
              (λ x e. (done.there x e, after)) after)
          (λ fs. k) (λ fs. after))
        (λ _ v h. h)

  removing :
      (u : World)
      → Kept u
      → Post
          (λ _ v. (is_assigned a t v.db ≡ false) × Kept v)
          Kept
          ((run (remove_artifact_type a t) or internal_error) u)
  removing u k =
      let gone = remove-false a t u.now u.db in
      let after : OthersKept a t w.db (remove_artifact_type a t u.now u.db).1 =
        λ b c h. remove-others a t u.now u.db b c h ∙ k b c h in
      run-Post (λ _ v. (is_assigned a t v.db ≡ false) × Kept v) Kept internal_error
        (remove_artifact_type a t) u
        (λ fs.
          Post-step_of (λ _ v. (is_assigned a t v.db ≡ false) × Kept v) Kept internal_error _ _
            (λ x e. (gone, after)) after)
        (λ fs. k) (λ fs. after)

-- An assignment that succeeds leaves the type assigned to the artifact, an unassignment that
-- succeeds leaves it not assigned, and neither, whichever of its calls fail, changes whether a type is
-- assigned to an artifact for any other pair.
pub assign_type-Assigned :
    (raw_id raw_type_id : Text) (a t : ℕ) (w : World)
    → path_id raw_id ≡ some a
    → path_id raw_type_id ≡ some t
    → Post
        (λ _ u. (is_assigned a t u.db ≡ true) × OthersKept a t w.db u.db)
        (λ u. OthersKept a t w.db u.db)
        (assign_type raw_id raw_type_id w)
      × Post
          (λ _ u. (is_assigned a t u.db ≡ false) × OthersKept a t w.db u.db)
          (λ u. OthersKept a t w.db u.db)
          (unassign_type raw_id raw_type_id w)
unfolding assign_type unassign_type get_registry_artifact get_artifact_type
    get_artifact_type_assignment
assign_type-Assigned raw_id raw_type_id a t w ha ht =
    rw (ha, ht)
      (
        Post-continue (λ _. K) (λ _ u. (is_assigned a t u.db ≡ true) × K u) K _ _
            (read_only a t w (get_registry_artifact a) (λ now d. refl) w (λ b c h. refl))
            (λ _ u k.
              Post-continue (λ _. K) (λ _ v. (is_assigned a t v.db ≡ true) × K v) K _ _
                (read_only a t w (get_artifact_type t) (λ now d. refl) u k)
                (λ r v l. assigning a t w r v l)),
        Post-continue (λ _. K) (λ _ u. (is_assigned a t u.db ≡ false) × K u) K _ _
            (read_only a t w (get_artifact_type_assignment a t) (λ now d. refl) w (λ b c h. refl))
            (λ _ u k. removing a t w u k),
      )
  where
    K : World → Type 0
    K u = OthersKept a t w.db u.db
