-- ===== src/Backup.antt =====
-- internal/storage/backup.go: the choice of the latest backup by its key. A key is compared with
-- another byte by byte, as Go compares strings.
pub mod Latest
pub mod Restore
pub mod Stripped
pub mod Guard
pub mod Command
pub mod Order
pub mod Whole
pub mod Recovery
use fusion_index.Prelude.{
  ℕ, Bool, true, false, ◌&&◌, ◌||◌, Option, none, some, List, [], ◌∷◌, Text, ltb, ◌==◌,
  if◌then◌else◌,
}

-- Whether a string is less than another.
unfoldable pub text_less : Text → Text → Bool
text_less [] [] = false
text_less [] (d ∷ t) = true
text_less (c ∷ s) [] = false
text_less (c ∷ s) (d ∷ t) = ltb c d || (c == d && text_less s t)

-- What the paginator answers: a page with the keys of its objects, or an error. An object may have
-- no key.
abbrev pub KeyPage : Type 0
KeyPage = Option (List (Option Text))

-- The loop over the objects of a page.
unfoldable pub latest_on : Text → List (Option Text) → Text
unfolding text_less
latest_on latest [] = latest
latest_on latest (none ∷ keys) = latest_on latest keys
latest_on latest (some key ∷ keys) = latest_on (if text_less latest key then key else latest) keys

-- The loop over the pages.
unfoldable pub latest_of : Text → List KeyPage → Option Text
unfolding latest_on
latest_of latest [] = some latest
latest_of latest (none ∷ pages) = none
latest_of latest (some keys ∷ pages) = latest_of (latest_on latest keys) pages

-- A key that is not empty.
unfoldable pub found_key : Option Text → Option Text
found_key none = none
found_key (some []) = none
found_key (some (c ∷ key)) = some (c ∷ key)

-- FindLatestBackupKey
unfoldable pub find_latest_backup_key : List KeyPage → Option Text
unfolding latest_of found_key
find_latest_backup_key pages = found_key (latest_of [] pages)
