-- ===== src/Image/Cleanup.antt =====
-- CleanupTempFiles of internal/compute/image/pull.go.
use hpktainer.Base.{
  ℕ, Bool, false, Option, none, some, List, [], ◌∷◌, ◌++◌, Bytes, codes, ◌≡◌, refl, ap, ◌∙◌, arith,
  if◌then◌else◌, ◌&&◌, not, contains, contains-middle, join_path, format_uint,
}

-- A directory entry: its name, and whether it is a directory.
abbrev pub Entry : Type 0
Entry = Bytes × Bool

-- What os.ReadDir gives.
pub data Listing : Type 0 where
  absent unreadable : Listing
  entries : List Entry → Listing

pub is_leftover : Entry → Bool
is_leftover (name, is_dir) = not is_dir && contains name (codes ".tmp-")

-- The paths that the loop removes; whether a removal succeeds is only logged.
unfoldable pub remove_leftovers : Bytes → List Entry → List Bytes
unfolding is_leftover
remove_leftovers image_dir [] = []
remove_leftovers image_dir (e ∷ es) =
    let rest = remove_leftovers image_dir es in
    if is_leftover e then join_path (image_dir ∷ e.0 ∷ []) ∷ rest else rest

-- The paths removed, or the error.
pub cleanup_temp_files : Bytes → Listing → Option (List Bytes)
unfolding remove_leftovers
cleanup_temp_files image_dir absent = some []
cleanup_temp_files image_dir unreadable = none
cleanup_temp_files image_dir (entries es) = some (remove_leftovers image_dir es)

remove_leftovers-append :
    (dir : Bytes) (es fs : List Entry)
    → remove_leftovers dir (es ++ fs) ≡ remove_leftovers dir es ++ remove_leftovers dir fs
unfolding remove_leftovers
remove_leftovers-append dir [] fs = refl
remove_leftovers-append dir (e ∷ es) fs = ground (arith, remove_leftovers-append dir es fs)

-- The temporary file that an interrupted pull leaves in the image directory is removed, wherever it
-- stands among the entries, and it changes nothing for the others.
pub cleanup_temp_files-tmp :
    (dir name : Bytes) (unix_nano : ℕ) (before after : List Entry)
    → let tmp = name ++ (codes ".tmp-" ++ format_uint unix_nano) in
      cleanup_temp_files dir (entries (before ++ (tmp, false) ∷ after))
      ≡ some
          (remove_leftovers dir before ++ join_path (dir ∷ tmp ∷ []) ∷ remove_leftovers dir after)
unfolding cleanup_temp_files
cleanup_temp_files-tmp dir name unix_nano before after = ap some (
    remove_leftovers-append dir before _
    ∙ rw (contains-middle name (codes ".tmp-") (format_uint unix_nano)) refl)
