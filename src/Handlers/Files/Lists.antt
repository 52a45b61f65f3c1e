-- ===== src/Handlers/Files/Lists.antt =====
-- FileHandler.List of internal/api/handlers/files.go, and the file responses of
-- internal/api/dto/responses.go.
use fusion_index.Prelude.{
  ℕ, Bool, true, ◌||◌, Option, none, some, List, [], ◌∷◌, map, Text, codes, keep_if, exists,
  text_eq, join_from, if◌then◌else◌,
}
use fusion_index.Strconv.{print}
use fusion_index.Semver.{Semver, to_text}
use fusion_index.Db.{File, FileStatus, pending, available, error}
use fusion_index.Db.Files.{list_artifact_files}
use fusion_index.Session.{run}
use fusion_index.Handlers.{Handler, ◌>>=◌, pure, require, ◌or◌, internal_error}
use fusion_index.Handlers.Files.{resolve_version}

pub record FileResponse : Type 0 where
  pub file : File
  pub download_url : Text

-- The format "/api/v1/artifacts/%d/versions/%s/files/%d/download"
unfoldable pub download_url : ℕ → Semver → ℕ → Text
unfolding join_from
download_url artifact_id sv file_id = join_from b'/' [] (
    codes "api"
    ∷ codes "v1"
    ∷ codes "artifacts"
    ∷ print artifact_id
    ∷ codes "versions"
    ∷ to_text sv
    ∷ codes "files"
    ∷ print file_id
    ∷ codes "download"
    ∷ [])

-- ToFileResponse
unfoldable pub to_file_response : ℕ → Semver → File → FileResponse
unfolding download_url
to_file_response artifact_id sv f = record {
  file = f;
  download_url = download_url artifact_id sv f.id;
}

unfoldable pub status_text : FileStatus → Text
status_text pending = codes "PENDING"
status_text available = codes "AVAILABLE"
status_text error = codes "ERROR"

-- The status parameters, if each is one of the three.
unfoldable pub known_statuses : List Text → Option (List Text)
known_statuses [] = some []
known_statuses (s ∷ statuses) =
    let rest = known_statuses statuses in
    if text_eq s (codes "PENDING") || text_eq s (codes "AVAILABLE") || text_eq s (codes "ERROR")
    then elim rest [ none ↦ none | some known ↦ some (s ∷ known) ]
    else none

-- len(statuses) == 0 || statuses[f.Status]
unfoldable pub shows_status : List Text → File → Bool
unfolding status_text
shows_status [] f = true
shows_status (s ∷ statuses) f = exists (text_eq (status_text f.status)) (s ∷ statuses)

-- List
unfoldable pub list_files : Text → Text → List Text → Handler (List FileResponse)
unfolding resolve_version known_statuses shows_status to_file_response
list_files raw_id raw_semver raw_statuses = do
  r ← resolve_version raw_id raw_semver
  statuses ← require 400 (known_statuses raw_statuses)
  files ← run (list_artifact_files r.version.id) or internal_error
  pure (map (to_file_response r.artifact_id r.semver) (keep_if (shows_status statuses) files))
