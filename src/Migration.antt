-- ===== src/Migration.antt =====
-- internal/storage/migrate.go: the copy of objects from one prefix of a bucket to another. path.Join
-- is the parameter `join`. HeadObject and CopyObject act on the objects of the bucket, and each draws
-- a fate.
pub mod Copies
pub mod Resume
pub mod Command
pub mod Marker
pub mod Marked
use fusion_index.Prelude.{
  ℕ, suc, Bool, true, false, Option, none, some, is_some, List, [], ◌∷◌, Text, ◌==◌, if◌then◌else◌,
}
use fusion_index.Session.{Fate, served, refused, lost, next_fate, Object, find_object, put_object}

pub record Bucket : Type 0 where
  pub objects : List Object
  pub fates : List Fate

unfoldable pub trim_left : ℕ → Text → Text
trim_left c [] = []
trim_left c (d ∷ s) = let rest = trim_left c s in if d == c then rest else d ∷ s

unfoldable pub trim_right : ℕ → Text → Text
trim_right c [] = []
trim_right c (d ∷ s) = elim (trim_right c s) [
  | [] ↦ if d == c then [] else d ∷ []
  | e ∷ rest ↦ d ∷ e ∷ rest
]

-- strings.Trim with a cutset of one byte
unfoldable pub trim : ℕ → Text → Text
unfolding trim_left trim_right
trim c s = trim_right c (trim_left c s)

-- joinPrefix
unfoldable pub join_prefix : (Text → Text → Text) → Text → Text → Text
join_prefix join [] relative_path = relative_path
join_prefix join (c ∷ prefix) relative_path = join (c ∷ prefix) relative_path

-- HeadObject: whether it answers without an error.
unfoldable pub head_fate : Fate → Text → List Object → Bool
unfolding find_object
head_fate served key objects = is_some (find_object key objects)
head_fate refused key objects = false
head_fate (lost n) key objects = false

unfoldable pub head_object : Text → Bucket → Bool × Bucket
unfolding next_fate head_fate
head_object key b =
    let (fate, rest) = next_fate b.fates in
    (head_fate fate key b.objects, record b { fates = rest })

-- The objects after a copy has its effect; a source that is not there has none.
unfoldable pub put_copy : Option Object → Text → List Object → List Object
unfolding put_object
put_copy none key objects = objects
put_copy (some o) key objects = put_object key o.content objects

-- CopyObject: whether it answers without an error.
unfoldable pub copy_fate : Fate → Option Object → Text → List Object → Bool × List Object
unfolding put_copy
copy_fate served source key objects = (is_some source, put_copy source key objects)
copy_fate refused source key objects = (false, objects)
copy_fate (lost n) source key objects = (false, put_copy source key objects)

unfoldable pub copy_object : Text → Text → Bucket → Bool × Bucket
unfolding next_fate copy_fate find_object
copy_object from to b =
    let (fate, rest) = next_fate b.fates in
    let (copied, objects) = copy_fate fate (find_object from b.objects) to b.objects in
    (copied, record { objects = objects; fates = rest })

-- The counts of copied and skipped objects, with an error or without.
pub data Migrated : Type 0 where
  done stopped : ℕ → ℕ → Migrated

-- The loop over the paths.
unfoldable pub copy_paths :
    (Text → Text) → (Text → Text) → List Text → ℕ → ℕ → Bucket → Migrated × Bucket
unfolding head_object copy_object
copy_paths old_key new_key [] copied skipped b = (done copied skipped, b)
copy_paths old_key new_key (p ∷ ps) copied skipped b =
    let (there, b1) = head_object (new_key p) b in
    elim there [
      | true ↦ copy_paths old_key new_key ps copied (suc skipped) b1
      | false ↦
          let (success, b2) = copy_object (old_key p) (new_key p) b1 in
          elim success [
            | true ↦ copy_paths old_key new_key ps (suc copied) skipped b2
            | false ↦ (stopped copied skipped, b2)
          ]
    ]

-- MigratePrefix
unfoldable pub migrate_prefix :
    (Text → Text → Text) → Text → Text → List Text → Bucket → Migrated × Bucket
unfolding trim join_prefix copy_paths
migrate_prefix join old_prefix new_prefix paths b =
    copy_paths (join_prefix join (trim b'/' old_prefix)) (join_prefix join (trim b'/' new_prefix))
      paths 0 0 b
