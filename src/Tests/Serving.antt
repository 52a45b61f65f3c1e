-- ===== src/Tests/Serving.antt =====
-- A request to the router, and an upload that is downloaded.
use fusion_index.Prelude.{
  ℕ, ◌≡◌, refl, ap, ◌∙◌, sym, Bool, false, ◌&&◌, ◌==◌, Option, some, List, Text, codes, arith,
  All-found, find, find_holds, length, exists, text_eq, has_prefix, trim_prefix, join_from,
  if◌then◌else◌,
}
use fusion_index.Strconv.{print}
use fusion_index.Db.{File, available}
use fusion_index.Db.Files.{named}
use fusion_index.Session.{World}
use fusion_index.Handlers.{next}
use fusion_index.Handlers.Files.{UploadForm, upload, download}
use fusion_index.Router.{
  Verb, get, post, put, delete, options, other, Route, routes, HttpRequest, serve, artifacts_list,
}
use fusion_index.Router.Access.{Matches, IsAllowed, serve-IsAllowed}
use fusion_index.Safety.Uploads.{upload-download}
use fusion_index.Tests.Registry.{uploaded, calm_world, one_zero, old, old-found}
use fusion_index.Tests.Services.{config, cluster, header, account}
use fusion_index.Tests.Lists.{one_id, one_zero_read}

abbrev code_of : Verb → ℕ
code_of get = 0
code_of post = 1
code_of put = 2
code_of delete = 3
code_of options = 4
code_of other = 5

abbrev verb_of : ℕ → Verb
verb_of n =
    if n == 0
    then get
    else if n == 1
    then post
    else if n == 2
    then put
    else if n == 3
    then delete
    else if n == 4
    then options
    else other

verb_of-code_of : (v : Verb) → verb_of (code_of v) ≡ v
verb_of-code_of get = refl
verb_of-code_of post = refl
verb_of-code_of put = refl
verb_of-code_of delete = refl
verb_of-code_of options = refl
verb_of-code_of other = refl

-- The first route with the method and exactly the path.
abbrev exactly : Verb → Text → Route → Bool
exactly v path r = (code_of r.verb == code_of v) && text_eq r.pattern path

abbrev literal : List Route → Verb → Text → Option Route
literal rs v path = find (exactly v path) rs

literal-Matches : Matches literal
literal-Matches rs v path r h =
    let held = find_holds (exactly v path) rs r h in
    let same : code_of r.verb ≡ code_of v = ground (arith, held) in
    (
      λ P every. All-found P (exactly v path) rs r h every,
      sym (verb_of-code_of r.verb) ∙ ap verb_of same ∙ verb_of-code_of v,
    )

abbrev request : HttpRequest
request = record { verb = get; path = codes "/api/v1/artifacts"; authorization = header }

serve-IsAllowed_example : IsAllowed config cluster get header artifacts_list (some account)
unfolding serve routes text_eq find has_prefix trim_prefix exists join_from
serve-IsAllowed_example =
    serve-IsAllowed literal literal-Matches config cluster refl request artifacts_list
      (some account) refl

abbrev form : UploadForm
form = record uploaded { filename = codes "b.bin" }

free : exists (named old.id form.filename) calm_world.db.files ≡ false
unfolding exists named text_eq
free = refl

upload-download_example :
    (f : File) × (w : World) × (upload
        (codes "s3")
        (codes "1")
        (codes "1.0.0")
        (some form)
        calm_world
      ≡ (next f, w))
    × (f.status ≡ available)
    × (f.name ≡ form.filename)
    × (f.size_bytes ≡ some (length form.content))
    × ((download (codes "1") (codes "1.0.0") (print f.id) w).0 ≡ next form.content)
upload-download_example =
    upload-download (codes "s3") (codes "1") (codes "1.0.0") form 1 one_zero old calm_world refl
      refl one_id one_zero_read old-found free (omega arith)
