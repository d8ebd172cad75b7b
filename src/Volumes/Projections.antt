-- ===== src/Volumes/Projections.antt =====
-- collectData of internal/compute/volume/projected/projected.go: the files of all sources of a projected
-- volume. The answers are those of one call; a request belongs to a source by its position. The loop over
-- the files of a source goes from the end of the list.
use hpktainer.Base.{
  append-nil, append_assoc, ℕ, suc, ℤ, Option, none, some, List, [], ◌∷◌, ◌++◌, Bytes, ◌≡◌, refl,
  sym, ap, ◌∙◌, arith, lookup, insert, lookup-insert,
}
use hpktainer.Volumes.{VolumeError, request_failed, Result, ok, err, Retry}
use hpktainer.Volumes.Payload.{
  Files, FileProjection, ConfigMap, Secret, ObjectSource, is_optional, fetch_object, and_then_files,
  make_config_map_payload, make_secret_payload,
}
use hpktainer.Volumes.Payload.Made.{first_of, first_of-none, first_of_assoc}
use hpktainer.Volumes.Downward.{Item, collect_data}

-- corev1.VolumeProjection. The default mode stands in the volume, not in a source.
pub data Source : Type 0 where
  secret_source config_map_source : ObjectSource → Source
  downward_source : List Item → Source
  token_source : Bytes → Source
  no_source : Source

pub record Answers : Type 0 where
  pub get_secret : ℕ → ℕ → Result Secret
  pub get_config_map : ℕ → ℕ → Result ConfigMap
  pub retry_secret : Retry Secret
  pub retry_config_map : Retry ConfigMap
  pub extract_field : Bytes → Option Bytes
  pub create_token : ℕ → Option Bytes

token_files : Bytes → ℤ → Option Bytes → Result Files
token_files path mode none = err request_failed
token_files path mode (some token) = ok ((path, (token, mode)) ∷ [])

-- A case of the switch, for the source at the position `i`.
pub source_files : Answers → ℤ → ℕ → Source → Result Files
unfolding token_files
source_files a mode i (secret_source s) =
    and_then_files
      (fetch_object (is_optional s.optional) (record { secret_data = [] }) a.retry_secret
        (a.get_secret i))
      (λ o. make_secret_payload s.items o (some mode) (is_optional s.optional))
source_files a mode i (config_map_source s) =
    and_then_files
      (fetch_object (is_optional s.optional) (record { text_data = []; binary_data = [] })
        a.retry_config_map (a.get_config_map i))
      (λ o. make_config_map_payload s.items o (some mode) (is_optional s.optional))
source_files a mode i (downward_source items) = collect_data a.extract_field items (some mode)
source_files a mode i (token_source path) = token_files path mode (a.create_token i)
source_files a mode i no_source = ok []

-- `for k, v := range …`.
merge : Files → Files → Files
merge [] files = files
merge ((path, file) ∷ others) files = insert path file (merge others files)

collect_one : Result Files → Files × List VolumeError → Files × List VolumeError
unfolding merge
collect_one (err e) (files, errors) = (files, errors ++ e ∷ [])
collect_one (ok new) (files, errors) = (merge new files, errors)

collect_from : Answers → ℤ → ℕ → List Source → Files × List VolumeError → Files × List VolumeError
unfolding collect_one
collect_from a mode i [] state = state
collect_from a mode i (s ∷ sources) state =
    collect_from a mode (suc i) sources (collect_one (source_files a mode i s) state)

-- collectData: the payload, and the errors of which the aggregate is made.
unfoldable pub collect_projected : Answers → ℤ → List Source → Files × List VolumeError
unfolding collect_from
collect_projected a mode sources = collect_from a mode 0 sources ([], [])

abbrev pub file_in : Bytes → Result Files → Option FileProjection
file_in path (err e) = none
file_in path (ok files) = lookup path files

-- The file of the last source that has one at the path.
abbrev pub last_source : Answers → ℤ → ℕ → List Source → Bytes → Option FileProjection
last_source a mode i [] path = none
last_source a mode i (s ∷ sources) path =
    first_of (last_source a mode (suc i) sources path) (file_in path (source_files a mode i s))

abbrev pub error_in : Result Files → List VolumeError
error_in (err e) = e ∷ []
error_in (ok files) = []

-- The errors of the sources, in their order.
abbrev pub errors_of : Answers → ℤ → ℕ → List Source → List VolumeError
errors_of a mode i [] = []
errors_of a mode i (s ∷ sources) =
    error_in (source_files a mode i s) ++ errors_of a mode (suc i) sources

lookup-merge :
    (path : Bytes) (new files : Files)
    → lookup path (merge new files) ≡ first_of (lookup path new) (lookup path files)
unfolding merge lookup
lookup-merge path [] files = refl
lookup-merge path ((p, file) ∷ others) files =
    ground (arith, lookup-insert p path file (merge others files), lookup-merge path others files)

collect_one-lookup :
    (path : Bytes) (r : Result Files) (files : Files) (errors : List VolumeError)
    → lookup path (collect_one r (files, errors)).0 ≡ first_of (file_in path r) (lookup path files)
unfolding collect_one
collect_one-lookup path (err e) files errors = refl
collect_one-lookup path (ok new) files errors = lookup-merge path new files

collect_from-lookup :
    (a : Answers) (mode : ℤ) (i : ℕ) (sources : List Source) (files : Files)
    (errors : List VolumeError) (path : Bytes)
    → lookup path (collect_from a mode i sources (files, errors)).0
      ≡ first_of (last_source a mode i sources path) (lookup path files)
unfolding collect_from
collect_from-lookup a mode i [] files errors path = refl
collect_from-lookup a mode i (s ∷ sources) files errors path =
    let r = source_files a mode i s in
    let state = collect_one r (files, errors) in
    collect_from-lookup a mode (suc i) sources state.0 state.1 path
    ∙ ap (first_of (last_source a mode (suc i) sources path))
        (collect_one-lookup path r files errors)
    ∙ sym (
        first_of_assoc (last_source a mode (suc i) sources path) (file_in path r)
          (lookup path files))

collect_projected-lookup :
    (a : Answers) (mode : ℤ) (sources : List Source) (path : Bytes)
    → lookup path (collect_projected a mode sources).0 ≡ last_source a mode 0 sources path
unfolding collect_projected lookup
collect_projected-lookup a mode sources path =
    collect_from-lookup a mode 0 sources [] [] path
    ∙ first_of-none (last_source a mode 0 sources path)

collect_one-errors :
    (r : Result Files) (files : Files) (errors : List VolumeError)
    → (collect_one r (files, errors)).1 ≡ errors ++ error_in r
unfolding collect_one
collect_one-errors (err e) files errors = refl
collect_one-errors (ok new) files errors = sym (append-nil errors)

collect_from-errors :
    (a : Answers) (mode : ℤ) (i : ℕ) (sources : List Source) (files : Files)
    (errors : List VolumeError)
    → (collect_from a mode i sources (files, errors)).1 ≡ errors ++ errors_of a mode i sources
unfolding collect_from
collect_from-errors a mode i [] files errors = sym (append-nil errors)
collect_from-errors a mode i (s ∷ sources) files errors =
    let r = source_files a mode i s in
    let state = collect_one r (files, errors) in
    collect_from-errors a mode (suc i) sources state.0 state.1
    ∙ ap (λ es. es ++ errors_of a mode (suc i) sources) (collect_one-errors r files errors)
    ∙ append_assoc errors (error_in r) (errors_of a mode (suc i) sources)

collect_projected-errors :
    (a : Answers) (mode : ℤ) (sources : List Source)
    → (collect_projected a mode sources).1 ≡ errors_of a mode 0 sources
unfolding collect_projected
collect_projected-errors a mode sources = collect_from-errors a mode 0 sources [] []

-- What collectData gives.
pub record Collected (a : Answers) (mode : ℤ) (sources : List Source) : Type 0 where
  pub files :
      (path : Bytes)
      → lookup path (collect_projected a mode sources).0 ≡ last_source a mode 0 sources path
  pub errors : (collect_projected a mode sources).1 ≡ errors_of a mode 0 sources

-- Whatever the sources are and whatever becomes of their requests: in the payload of collectData the file
-- at a path is that of the last source that has one there, also if other sources fail, and the errors
-- are those of the sources that fail, one for each, in the order of the sources, and no others.
pub collect_projected-Collected :
    (a : Answers) (mode : ℤ) (sources : List Source) → Collected a mode sources
collect_projected-Collected a mode sources = record {
  files = λ path. collect_projected-lookup a mode sources path;
  errors = collect_projected-errors a mode sources;
}
