-- ===== src/Safety/Listed.antt =====
-- The file list of internal/api/handlers/files.go and the downloads that it points to.
use fusion_index.Prelude.{
  ℕ, ◌^◌, ◌<◌, ◌≤◌, ◌≡◌, refl, ap, true, false, Option, none, some, is_some, List, [], ◌∷◌, map,
  Text, codes, arith, All, All-map, All-append, All-keep_if, All-of_map, find, keep_if, ◌==◌,
  exists, split, Lacks, Lacks-of, split-join_from,
}
use fusion_index.Strconv.{print, is_digit}
use fusion_index.Strconv.RoundTrip.{print-Digits}
use fusion_index.Semver.{Semver, IsInt32, parse, to_text}
use fusion_index.Semver.RoundTrip.{parse-IsInt32, parse-to_text}
use fusion_index.Db.{Version, File, available}
use fusion_index.Db.Versions.{at_semver}
use fusion_index.Session.{Object, find_object, World}
use mathlib.Core.Path.{subst}
use fusion_index.Db.Files.{list_artifact_files}
use fusion_index.Handlers.{next, internal_error}
use fusion_index.Handlers.Post.{Post, Post-continue, Post-require, run-Post}
use fusion_index.Handlers.Params.{path_id}
use fusion_index.Handlers.Files.{download}
use fusion_index.Handlers.Files.Lists.{
  FileResponse, shows_status, known_statuses, download_url, to_file_response, list_files,
}
use fusion_index.Safety.{IsSafeWorld, IsFileSafe}
use fusion_index.Safety.Download.{path_id-print, resolve_version-found, download-content}

digits-Lacks :
    (sep : ℕ) → is_digit sep ≡ false → (s : Text) → All (λ c. is_digit c ≡ true) s → Lacks sep s
digits-Lacks sep other s h = All-map (λ c d same. cc (ap is_digit same, d, other)) s h

print-Lacks : (n : ℕ) → Lacks b'/' (print n)
unfolding is_digit
print-Lacks n = digits-Lacks b'/' refl (print n) (print-Digits n)

to_text-Lacks : (sv : Semver) → Lacks b'/' (to_text sv)
unfolding to_text
to_text-Lacks sv = All-append _ (print sv.major) _ (print-Lacks sv.major) (
  (λ e. cc e),
  All-append _ (print sv.minor) _ (print-Lacks sv.minor) ((λ e. cc e), print-Lacks sv.patch),
)

-- The segments of a download URL.
abbrev pub url_segments : Text → Text → Text → List Text
url_segments raw_id raw_semver raw_file_id =
    []
    ∷ codes "api"
    ∷ codes "v1"
    ∷ codes "artifacts"
    ∷ raw_id
    ∷ codes "versions"
    ∷ raw_semver
    ∷ codes "files"
    ∷ raw_file_id
    ∷ codes "download"
    ∷ []

split-download_url :
    (a : ℕ) (sv : Semver) (i : ℕ)
    → split b'/' (download_url a sv i) ≡ url_segments (print a) (to_text sv) (print i)
unfolding download_url exists
split-download_url a sv i = split-join_from b'/' [] _ tt (
  Lacks-of b'/' (codes "api") refl,
  (
    Lacks-of b'/' (codes "v1") refl,
    (
      Lacks-of b'/' (codes "artifacts") refl,
      (
        print-Lacks a,
        (
          Lacks-of b'/' (codes "versions") refl,
          (
            to_text-Lacks sv,
            (
              Lacks-of b'/' (codes "files") refl,
              (print-Lacks i, (Lacks-of b'/' (codes "download") refl, tt)),
            ),
          ),
        ),
      ),
    ),
  ),
)

-- The URL leads to a download, the raw parameters of which are its segments, that is answered with
-- this content.
pub record Downloads (w : World) (url content : Text) : Type 0 where
  pub raw_id : Text
  pub raw_semver : Text
  pub raw_file_id : Text
  pub segments : split b'/' url ≡ url_segments raw_id raw_semver raw_file_id
  pub answer : (download raw_id raw_semver raw_file_id w).0 ≡ next content

-- An AVAILABLE file of a list has an object, and its URL downloads it.
abbrev pub IsServed : World → FileResponse → Type 0
IsServed w i =
    i.file.status ≡ available
    → (o : Object) × (find_object i.file.storage_path w.objects ≡ some o)
      × Downloads w i.download_url o.content

is_some-found : (o : Option Object) → is_some o ≡ true → (x : Object) × (o ≡ some x)
is_some-found none h = cc
is_some-found (some x) h = (x, refl)

module _ (w : World) (safe : IsSafeWorld w) (calm : w.fates ≡ [])
    (calm_storage : w.storage_fates ≡ []) (drawn : w.db.sequences.file ≤ 2 ^ 63) (a : ℕ)
    (sv : Semver) (v : Version) (small : a < 2 ^ 63) (int32 : IsInt32 sv)
    (found : find (at_semver a sv) w.db.versions ≡ some v) where
  response-IsServed :
      (f : File)
      → IsFileSafe w.db w.objects f
      → (f.version_id == v.id) ≡ true
      → IsServed w (to_file_response a sv f)
  unfolding to_file_response
  response-IsServed f s of_version status =
      let (o, there) = is_some-found (find_object f.storage_path w.objects) (s.backed status) in
      let bound : f.id < 2 ^ 63 = omega (arith, s.drawn, drawn) in
      let same : f.version_id ≡ v.id = ground (arith, of_version) in
      (
        o,
        there,
        record {
          raw_id = print a;
          raw_semver = to_text sv;
          raw_file_id = print f.id;
          segments = split-download_url a sv f.id;
          answer =
              download-content f w s.keyed calm calm_storage (print a) (to_text sv) a sv v o status
                there (path_id-print a small) (parse-to_text sv int32) found same bound;
        },
      )

  responses-IsServed :
      (statuses : List Text)
      → All (IsServed w) (
          map
            (to_file_response a sv)
            (keep_if (shows_status statuses) (keep_if (λ f. f.version_id == v.id) w.db.files)))
  responses-IsServed statuses = All-of_map (IsServed w) (to_file_response a sv) _ (
      All-keep_if (shows_status statuses) (λ f h _. h) _
        (All-keep_if (λ f. f.version_id == v.id) response-IsServed w.db.files safe.safe))

-- Where the tables agree with storage and no call fails, a list of the files of a version tells for each
-- AVAILABLE file an address whose segments, taken as the parameters of a download, give the content of
-- the file's object; the ids of the artifact and of the files are below 2^63.
pub list_files-IsServed :
    (raw_id raw_semver : Text) (statuses : List Text) (a : ℕ) (sv : Semver) (v : Version)
    (w w' : World) (items : List FileResponse)
    → IsSafeWorld w
    → w.fates ≡ []
    → w.storage_fates ≡ []
    → w.db.sequences.file ≤ 2 ^ 63
    → a < 2 ^ 63
    → path_id raw_id ≡ some a
    → parse raw_semver ≡ some sv
    → find (at_semver a sv) w.db.versions ≡ some v
    → list_files raw_id raw_semver statuses w ≡ (next items, w')
    → All (IsServed w) items
unfolding list_files list_artifact_files
list_files-IsServed raw_id raw_semver statuses a sv v w w' items safe calm calm_storage drawn small
      ha hs found answered =
    subst (Post Served (λ _. Unit)) answered (
      rw (resolve_version-found w raw_id raw_semver a sv v calm ha hs found) (
        Post-require Served (λ _. Unit) 400 (known_statuses statuses) _ w tt
          (λ known e.
            Post-continue Files Served (λ _. Unit) _ _
              (run-Post Files (λ _. Unit) internal_error (list_artifact_files v.id) w (λ fs. refl)
                (λ fs. tt) (λ fs. tt))
              (λ files u same. rw same (
                responses-IsServed w safe calm calm_storage drawn a sv v small
                  (parse-IsInt32 raw_semver sv hs) found known)))))
  where
    Served : List FileResponse → World → Type 0
    Served items u = All (IsServed w) items

    Files : List File → World → Type 0
    Files files u = files ≡ keep_if (λ f. f.version_id == v.id) w.db.files
