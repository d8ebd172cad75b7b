-- ===== src/Volumes/Payload.antt =====
-- The files of a volume, as the drivers collect them: MakePayload and SetUpAt of
-- internal/compute/volume/configmap and secret, CollectData of downwardapi, and collectData of
-- projected. The loop over a Go map goes from the end of the list. The atomic writer, the nested mount
-- points and the field paths are arguments.
pub mod Made
pub mod Served
use hpktainer.Base.{
  ℕ, ℤ, Bool, true, false, Option, none, some, List, [], ◌∷◌, Bytes, if◌then◌else◌, ◌&&◌, lookup,
  insert,
}
use hpktainer.Volumes.{
  not_found, no_default_mode, missing_key, not_mounted, not_written, Result, ok, err, write_payload,
  Done, Retry,
}
use hpktainer.Volumes.Claims.{is_not_found}

-- util.FileProjection, and a map of them.
abbrev pub FileProjection : Type 0
FileProjection = Bytes × ℤ

abbrev pub Files : Type 0
Files = List (Bytes × FileProjection)

pub record KeyToPath : Type 0 where
  pub key : Bytes
  pub path : Bytes
  pub mode : Option ℤ

pub record ConfigMap : Type 0 where
  pub text_data : List (Bytes × Bytes)
  pub binary_data : List (Bytes × Bytes)

pub record Secret : Type 0 where
  pub secret_data : List (Bytes × Bytes)

-- The loop over the data with no mappings.
unfoldable pub add_all : ℤ → List (Bytes × Bytes) → Files → Files
add_all mode [] files = files
add_all mode ((name, content) ∷ others) files =
    insert name (content, mode) (add_all mode others files)

abbrev pub mode_or : Option ℤ → ℤ → ℤ
mode_or none default_mode = default_mode
mode_or (some mode) default_mode = mode

-- The loop over the mappings, which the two drivers share up to the look-up of a key.
unfoldable pub project : (Bytes → Option Bytes) → Bool → ℤ → List KeyToPath → Files → Result Files
project find optional default_mode [] files = ok files
project find optional default_mode (m ∷ mappings) files = elim (find m.key) [
  | some content ↦
      project find optional default_mode mappings
        (insert m.path (content, mode_or m.mode default_mode) files)
  | none ↦ elim optional [
    | true ↦ project find optional default_mode mappings files
    | false ↦ err missing_key
  ]
]

-- configMap.Data[key], or else configMap.BinaryData[key].
unfoldable pub config_map_content : ConfigMap → Bytes → Option Bytes
config_map_content c key = elim (lookup key c.text_data) [
  | some content ↦ some content
  | none ↦ lookup key c.binary_data
]

unfoldable pub secret_content : Secret → Bytes → Option Bytes
secret_content s key = lookup key s.secret_data

config_map_files : List KeyToPath → ConfigMap → ℤ → Bool → Result Files
unfolding project add_all config_map_content
config_map_files [] c mode optional = ok (add_all mode c.binary_data (add_all mode c.text_data []))
config_map_files (m ∷ mappings) c mode optional =
    project (config_map_content c) optional mode (m ∷ mappings) []

-- MakePayload of configmap.
unfoldable pub make_config_map_payload : List KeyToPath → ConfigMap → Option ℤ → Bool → Result Files
unfolding config_map_files
make_config_map_payload mappings c none optional = err no_default_mode
make_config_map_payload mappings c (some mode) optional = config_map_files mappings c mode optional

secret_files : List KeyToPath → Secret → ℤ → Bool → Result Files
unfolding project add_all secret_content
secret_files [] s mode optional = ok (add_all mode s.secret_data [])
secret_files (m ∷ mappings) s mode optional =
    project (secret_content s) optional mode (m ∷ mappings) []

-- MakePayload of secret.
unfoldable pub make_secret_payload : List KeyToPath → Secret → Option ℤ → Bool → Result Files
unfolding secret_files
make_secret_payload mappings s none optional = err no_default_mode
make_secret_payload mappings s (some mode) optional = secret_files mappings s mode optional

-- The only attempt for an optional object, which is empty if there is none.
or_empty : {A : Type 0} → A → Result A → Result A
or_empty empty (ok a) = ok a
or_empty empty (err not_found) = ok empty
or_empty empty (err e) = err e

-- `if optional`: the request for the object.
unfoldable pub fetch_object : {A : Type 0} → Bool → A → Retry A → (ℕ → Result A) → Result A
unfolding or_empty is_not_found
fetch_object true empty retry get = or_empty empty (get 0)
fetch_object false empty retry get = retry is_not_found get

-- What the writing of the files meets.
pub record Writer : Type 0 where
  pub makes_nested_mountpoints : Bool
  pub makes_writer : Bool
  pub writes : Bool

write_files : Writer → Bytes → Files → Done
write_files w dir files =
    if w.makes_nested_mountpoints && w.makes_writer
    then (write_payload dir files ∷ [], if w.writes then none else some not_written)
    else ([], some not_mounted)

write_result : Writer → Bytes → Result Files → Done
unfolding write_files
write_result w dir (err e) = ([], some e)
write_result w dir (ok files) = write_files w dir files

-- The source of a volume of one of the two kinds; the name of the object is left out.
pub record ObjectSource : Type 0 where
  pub items : List KeyToPath
  pub default_mode : Option ℤ
  pub optional : Option Bool

-- `source.Optional != nil && *source.Optional`.
abbrev pub is_optional : Option Bool → Bool
is_optional none = false
is_optional (some b) = b

unfoldable pub and_then_files : {A : Type 0} → Result A → (A → Result Files) → Result Files
and_then_files (err e) f = err e
and_then_files (ok a) f = f a

-- The payload that SetUpAt makes of the config map, and SetUpAt.
unfoldable pub config_map_payload :
    ObjectSource → Retry ConfigMap → (ℕ → Result ConfigMap) → Result Files
unfolding and_then_files fetch_object make_config_map_payload
config_map_payload source retry get =
    and_then_files
      (fetch_object (is_optional source.optional) (record { text_data = []; binary_data = [] })
        retry get)
      (λ c.
        make_config_map_payload source.items c source.default_mode (is_optional source.optional))

unfoldable pub set_up_config_map :
    Writer → ObjectSource → Retry ConfigMap → (ℕ → Result ConfigMap) → Bytes → Done
unfolding write_result config_map_payload
set_up_config_map w source retry get dir = write_result w dir (config_map_payload source retry get)

unfoldable pub secret_payload : ObjectSource → Retry Secret → (ℕ → Result Secret) → Result Files
unfolding and_then_files fetch_object make_secret_payload
secret_payload source retry get =
    and_then_files
      (fetch_object (is_optional source.optional) (record { secret_data = [] }) retry get)
      (λ s. make_secret_payload source.items s source.default_mode (is_optional source.optional))

unfoldable pub set_up_secret :
    Writer → ObjectSource → Retry Secret → (ℕ → Result Secret) → Bytes → Done
unfolding write_result secret_payload
set_up_secret w source retry get dir = write_result w dir (secret_payload source retry get)
