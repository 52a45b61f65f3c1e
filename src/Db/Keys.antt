-- ===== src/Db/Keys.antt =====
-- Tables whose rows are found by their ids, and deletes by conditions that agree on the rows.
use fusion_index.Prelude.{
  ℕ, ◌≡◌, sym, ◌∙◌, ap, Bool, true, not, ◌&&◌, some, arith, All, All-map, keep_if, exists,
  exists_elim, exists-of_found, exists_cong, keep_if_cong, ◌==◌, Bool-cases, inl, inr,
}
use mathlib.Core.Bool.{false≢true}
use mathlib.Core.Path.{fun_ext}
use fusion_index.Db.{Db, Version, removes_version, delete_versions}
use fusion_index.Db.Versions.{find_version}

-- No two versions share an id.
abbrev pub IsKeyed : Db → Type 0
IsKeyed db = All (λ v. find_version v.id db ≡ some v) db.versions

at_found :
    (db : Db) (q : Version → Bool) (v : Version)
    → find_version v.id db ≡ some v
    → q v ≡ true
    → exists (λ u. u.id == v.id && q u) db.versions ≡ true
unfolding find_version
at_found db q v found holds =
    exists-of_found (λ u. u.id == v.id) (λ u. u.id == v.id && q u) db.versions v found
      (ground arith)

module _ (db : Db) (keyed : IsKeyed db) where
  at_id :
      (q : Version → Bool) (u v : Version)
      → find_version u.id db ≡ some u
      → find_version v.id db ≡ some v
      → (u.id == v.id && q u) ≡ true
      → q v ≡ true
  at_id q u v key found h =
      let ids : u.id ≡ v.id = ground arith in
      let same : u ≡ v = cc (sym key ∙ ap (λ i. find_version i db) ids ∙ found) in
      let holds : q u ≡ true = ground arith in ap q (sym same) ∙ holds

  -- Among keyed rows a condition on the id and one more is that one more.
  pub exists-at_id :
      (q : Version → Bool) (v : Version)
      → find_version v.id db ≡ some v
      → exists (λ u. u.id == v.id && q u) db.versions ≡ q v
  exists-at_id q v found = elim (Bool-cases (exists (λ u. u.id == v.id && q u) db.versions)) [
    | inl e ↦
        let (u, key, holds) = exists_elim (λ u. u.id == v.id && q u) db.versions keyed e in
        e ∙ sym (at_id q u v key found holds)
    | inr e ↦ elim (Bool-cases (q v)) [
      | inl t ↦ absurd (false≢true (sym e ∙ at_found db q v found t))
      | inr f ↦ e ∙ sym f
    ]
  ]

  pub removes_version_at :
      (q : Version → Bool) (v : Version)
      → find_version v.id db ≡ some v
      → removes_version q db v.id ≡ q v
  unfolding removes_version
  removes_version_at q v found = exists-at_id q v found

removes_cong :
    (p q : Version → Bool) (db : Db) (id : ℕ)
    → All (λ v. p v ≡ q v) db.versions
    → removes_version p db id ≡ removes_version q db id
unfolding removes_version
removes_cong p q db id h =
    exists_cong (λ v. v.id == id && p v) (λ v. v.id == id && q v) db.versions
      (All-map (λ v e. ap (λ b. v.id == id && b) e) db.versions h)

-- A delete reads its condition at the rows only.
pub delete_versions_cong :
    (p q : Version → Bool) (db : Db)
    → All (λ v. p v ≡ q v) db.versions
    → delete_versions p db ≡ delete_versions q db
unfolding delete_versions
delete_versions_cong p q db h =
    let gone : removes_version p db ≡ removes_version q db =
      fun_ext λ id. removes_cong p q db id h in
    λ i. record db {
      versions =
          keep_if_cong (λ v. not (p v)) (λ v. not (q v)) db.versions
            (All-map (λ v e. ap not e) db.versions h) i;
      files = keep_if (λ f. not (gone i f.version_id)) db.files;
      tags = keep_if (λ t. not (gone i t.version_id)) db.tags;
    }
