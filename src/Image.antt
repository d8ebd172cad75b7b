-- ===== src/Image.antt =====
-- internal/compute/image: the names of image files, and their download (pull.go, constants.go,
-- exec.go). Time and the runs of apptainer are arguments.
pub mod Names
pub mod Downloads
pub mod Concurrent
pub mod Progress
pub mod Cleanup
pub mod Examples
use hpktainer.Base.{
  ℕ, Bool, true, false, Option, none, some, List, [], ◌∷◌, ◌++◌, Bytes, codes, if◌then◌else◌, leb,
  ◌==◌, ◌||◌, ◌&&◌, has_prefix, split, beq, format_uint,
}

-- The class a-zA-Z0-9._- of the expression in ParseImageName.
abbrev pub is_kept : ℕ → Bool
is_kept c =
    (leb b'a' c && leb c b'z')
    || (leb b'A' c && leb c b'Z')
    || (leb b'0' c && leb c b'9')
    || c == b'.'
    || c == b'_'
    || c == b'-'

-- The loop of reg.ReplaceAllString(s, "_"), which knows whether it is in a run of other bytes.
pub replace_runs : Bool → Bytes → Bytes
replace_runs in_run [] = []
replace_runs in_run (c ∷ s) =
    if is_kept c
    then c ∷ replace_runs false s
    else if in_run
    then replace_runs true s
    else b'_' ∷ replace_runs true s

-- strings.SplitN(s, sep, 2) with a separator of one byte: what stands before the first separator,
-- and behind it if there is one.
unfoldable pub split_once : ℕ → Bytes → Bytes × Option Bytes
split_once sep [] = ([], none)
split_once sep (c ∷ s) =
    let (before, behind) = split_once sep s in
    if c == sep then ([], some s) else (c ∷ before, behind)

digest_suffix : Option Bytes → Bytes
unfolding replace_runs
digest_suffix none = []
digest_suffix (some []) = []
digest_suffix (some (c ∷ digest)) =
    let clean_digest = replace_runs false (c ∷ digest) in
    if beq clean_digest [] then [] else b'_' ∷ clean_digest

-- parts[0] and parts[1], or the tag latest.
ref_and_tag : List Bytes → Bytes × Bytes
ref_and_tag [] = ([], codes "latest")
ref_and_tag (image_ref ∷ []) = (image_ref, codes "latest")
ref_and_tag (image_ref ∷ tag ∷ _) = (image_ref, tag)

file_name : Bytes × Bytes → Bytes → Bytes
unfolding replace_runs
file_name (image_ref, tag) suffix =
    codes "/"
    ++ (replace_runs false image_ref
        ++ (codes "_" ++ (replace_runs false tag ++ (suffix ++ codes ".sif"))))

name_of : Bytes × Option Bytes → Bytes
unfolding file_name ref_and_tag digest_suffix
name_of (name_without_digest, digest) =
    file_name (ref_and_tag (split name_without_digest b':')) (digest_suffix digest)

-- ParseImageName.
unfoldable pub parse_image_name : Bytes → Bytes
unfolding name_of
parse_image_name [] = codes "/unnamed.sif"
parse_image_name (c ∷ raw) = name_of (split_once b'@' (c ∷ raw))

-- What os.Stat tells.
pub data Node : Type 0 where
  missing regular other : Node

-- The path of an Image, or the errors of ResolveLocal and Pull.
pub data Located : Type 0 where
  located : Bytes → Located
  not_found not_regular download_failed rename_failed : Located

of_absolute : Node → Bytes → Located
of_absolute missing path = not_found
of_absolute _ path = located path

of_file : Node → Bytes → Located
of_file missing path = not_found
of_file regular path = located path
of_file other path = not_regular

pub image_path : Bytes → Bytes → Bytes
image_path image_dir image_name = image_dir ++ parse_image_name image_name

-- ResolveLocal.
unfoldable pub resolve_local : (Bytes → Node) → Bytes → Bytes → Located
unfolding of_absolute of_file image_path
resolve_local stat image_dir image_name =
    if has_prefix image_name (codes "/")
    then of_absolute (stat image_name) image_name
    else of_file (stat (image_path image_dir image_name)) (image_path image_dir image_name)

-- Transport.Wrap.
pub wrap : Bytes → Bytes → Bytes
wrap transport image_name = transport ++ image_name

abbrev pub docker : Bytes
docker = codes "docker://"

pub data Effect : Type 0 where
  lock unlock remove : Bytes → Effect
  download : Bytes → Bytes → Effect
  rename : Bytes → Bytes → Effect

-- What Pull meets: the files at its first look and at the look under the lock, the time for the name
-- of the temporary file, and whether the download and the renaming succeed.
pub record Surroundings : Type 0 where
  pub stat : Bytes → Node
  pub stat_locked : Bytes → Node
  pub unix_nano : ℕ
  pub downloads : Bool
  pub renames : Bool

pub tmp_file : ℕ → Bytes → Bytes
tmp_file unix_nano target = target ++ (codes ".tmp-" ++ format_uint unix_nano)

after_download : Bool → Bool → Bytes → Bytes → List Effect × Located
after_download false renames tmp target = (remove tmp ∷ [], download_failed)
after_download true false tmp target = (rename tmp target ∷ remove tmp ∷ [], rename_failed)
after_download true true tmp target = (rename tmp target ∷ [], located target)

pub pull_image_name : Bytes → Bytes
unfolding split_once
pull_image_name image_name = (split_once b'@' image_name).0

fetch : Surroundings → Bytes → Bytes → Bytes → List Effect × Located
unfolding after_download tmp_file pull_image_name wrap
fetch s target transport image_name =
    let tmp = tmp_file s.unix_nano target in
    let (effects, result) = after_download s.downloads s.renames tmp target in
    (download tmp (wrap transport (pull_image_name image_name)) ∷ effects, result)

-- The look under the lock.
check_again : Located → Surroundings → Bytes → Bytes → Bytes → List Effect × Located
unfolding fetch
check_again (located path) s target transport image_name = ([], located path)
check_again _ s target transport image_name = fetch s target transport image_name

with_lock : Bytes → List Effect × Located → List Effect × Located
with_lock target (effects, result) = (lock target ∷ (effects ++ unlock target ∷ []), result)

first_look : Located → Surroundings → Bytes → Bytes → Bytes → List Effect × Located
unfolding with_lock check_again image_path
first_look (located path) s image_dir transport image_name = ([], located path)
first_look _ s image_dir transport image_name =
    let target = image_path image_dir image_name in
    with_lock target
      (check_again (resolve_local s.stat_locked image_dir image_name) s target transport image_name)

-- Pull.
unfoldable pub pull : Surroundings → Bytes → Bytes → Bytes → List Effect × Located
unfolding first_look
pull s image_dir transport image_name =
    first_look (resolve_local s.stat image_dir image_name) s image_dir transport image_name
