-- ===== src/Volumes/Downward.antt =====
-- CollectData of internal/compute/volume/downwardapi/downwardapi.go, and DownwardAPIVolumeSource of
-- internal/compute/podhandler/volumes.go. The extraction of a field of the pod is an argument; the loop
-- over the files goes in the order of the list.
use hpktainer.Base.{
  ℕ, ℤ, pos, Bool, true, false, Option, none, some, List, [], ◌∷◌, Bytes, codes, if◌then◌else◌,
  ◌==◌, insert, clean, join_path,
}
use hpktainer.Pod.{Pod}
use hpktainer.Conditions.{pod_error}
use hpktainer.Volumes.{
  no_default_mode, no_field, not_made, not_written, Result, ok, err, make_dir, write_file, Done,
  ◌then◌, Answer, attempt,
}
use hpktainer.Volumes.Payload.{Files, mode_or}

-- corev1.DownwardAPIVolumeFile: a reference to a field, to a resource, or none.
pub record Item : Type 0 where
  pub path : Bytes
  pub mode : Option ℤ
  pub field_ref : Option Bytes
  pub has_resource_field_ref : Bool

-- The data of an item; `none` for each of the three errors.
item_data : (Bytes → Option Bytes) → Item → Option Bytes
item_data extract item = elim (item.field_ref) [
  | some field_path ↦ extract field_path
  | none ↦ none
]

data_or_empty : Option Bytes → Bytes
data_or_empty none = []
data_or_empty (some content) = content

-- `errlist = append(errlist, err)`, as a flag.
failed_or : Option Bytes → Bool → Bool
failed_or none failed = true
failed_or (some content) failed = failed

collect_items : (Bytes → Option Bytes) → ℤ → List Item → Files → Bool → Result Files
unfolding item_data data_or_empty failed_or
collect_items extract default_mode [] files failed = if failed then err no_field else ok files
collect_items extract default_mode (i ∷ items) files failed =
    collect_items extract default_mode items
      (insert (clean i.path) (data_or_empty (item_data extract i), mode_or i.mode default_mode)
        files)
      (failed_or (item_data extract i) failed)

-- CollectData of downwardapi.
unfoldable pub collect_data : (Bytes → Option Bytes) → List Item → Option ℤ → Result Files
unfolding collect_items
collect_data extract items none = err no_default_mode
collect_data extract items (some mode) = collect_items extract mode items [] false

keep_to_separator : ℕ → Bytes → Bytes
keep_to_separator c [] = if c == b'/' then c ∷ [] else []
keep_to_separator c (d ∷ rest) = c ∷ d ∷ rest

-- What stands before the last separator, with it.
up_to_last_separator : Bytes → Bytes
unfolding keep_to_separator
up_to_last_separator [] = []
up_to_last_separator (c ∷ s) = keep_to_separator c (up_to_last_separator s)

-- filepath.Dir.
unfoldable pub parent_dir : Bytes → Bytes
unfolding up_to_last_separator
parent_dir path = clean (up_to_last_separator path)

pub record FileSystem : Type 0 where
  pub makes_dir : Bytes → Answer
  pub writes_file : Bytes → Answer

-- The loop over the files.
unfoldable pub write_all : FileSystem → Bytes → Files → Done
unfolding parent_dir
write_all f dir [] = ([], none)
write_all f dir ((relative, (content, mode)) ∷ files) =
    let item_path = join_path (dir ∷ relative ∷ []) in
    attempt (f.makes_dir (parent_dir item_path)) (make_dir (parent_dir item_path)) not_made
    then attempt (f.writes_file item_path) (write_file item_path content mode) not_written
    then write_all f dir files

-- corev1.DownwardAPIVolumeSource.
pub record DownwardApi : Type 0 where
  pub items : List Item
  pub default_mode : Option ℤ

unfoldable pub after_collect :
    FileSystem → ℕ → (Bytes → Bytes) → Pod → Bytes → Result Files → Done × Pod
unfolding write_all
after_collect f now message pod dir (err e) =
    (([], some e), pod_error now pod (codes "SpecError") (message (codes "SpecError")))
after_collect f now message pod dir (ok files) = (write_all f dir files, pod)

unfoldable pub after_dir : Done → Done × Pod → Pod → Done × Pod
after_dir (effects, none) (done, pod') pod = ((effects, none) then done, pod')
after_dir (effects, some e) rest pod = ((effects, some e), pod)

-- DownwardAPIVolumeSource, with the default mode 0644; `dir` is the directory of the volume.
unfoldable pub downward_api_volume_source :
    FileSystem
    → (Bytes → Option Bytes)
    → ℕ
    → (Bytes → Bytes)
    → Pod
    → Bytes
    → DownwardApi
    → Done × Pod
unfolding collect_data after_collect after_dir
downward_api_volume_source f extract now message pod dir source =
    after_dir (attempt (f.makes_dir dir) (make_dir dir) not_made)
      (after_collect f now message pod dir
        (collect_data extract source.items (some (mode_or source.default_mode (pos 420)))))
      pod
