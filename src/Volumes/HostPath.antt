-- ===== src/Volumes/HostPath.antt =====
-- The host paths of a pod: SetUpAt and checkTypeInternal of
-- internal/compute/volume/hostpath/host_path.go, and the case HostPath of mountVolumeSource. The
-- validation of the path is an answer.
use hpktainer.Base.{Bool, true, false, Option, none, some, [], Bytes, if◌then◌else◌}
use hpktainer.Volumes.{
  not_made, not_linked, not_inspected, no_path, back_steps, wrong_type, invalid_type, make_dir,
  make_file, symlink, Done, ◌then◌, Answer, attempt, attempt_new,
}

-- corev1.HostPathType; `unset` stands for HostPathUnset, and `other` for a type that is not known.
pub data PathType : Type 0 where
  unset directory_or_create directory file_or_create file socket char_dev block_dev other : PathType

-- What GetFileType tells apart.
pub data FileType : Type 0 where
  is_directory is_file is_socket is_char_dev is_block_dev : FileType

-- The outcome of os.Lstat: it finds something, fails with an error for which os.IsNotExist holds, or
-- fails with another.
pub data Lstat : Type 0 where
  lstat_found lstat_absent lstat_failed : Lstat

-- The answers of the file system: `path_exists` and `file_type` are `none` on an error; `lstat`
-- is the outcome of Lstat; `has_no_back_steps` is whether
-- ValidatePathNoBacksteps gives no error.
pub record Files : Type 0 where
  pub path_exists : Bytes → Option Bool
  pub file_type : Bytes → Option FileType
  pub lstat : Bytes → Lstat
  pub has_no_back_steps : Bytes → Bool
  pub makes_dir : Bytes → Answer
  pub makes_file : Bytes → Answer
  pub links : Bytes → Bytes → Answer

-- Exists.
abbrev pub existing : Option Bool → Bool
existing none = false
existing (some b) = b

abbrev pub same_type : FileType → FileType → Bool
same_type is_directory is_directory = true
same_type is_file is_file = true
same_type is_socket is_socket = true
same_type is_char_dev is_char_dev = true
same_type is_block_dev is_block_dev = true
same_type _ _ = false

abbrev pub has_type : Option FileType → FileType → Bool
has_type none t = false
has_type (some u) t = same_type u t

require : Bool → Done
require true = ([], none)
require false = ([], some wrong_type)

-- IsDir and IsFile look for the path first.
is_there : Files → Bytes → FileType → Done
unfolding require
is_there f path t =
    require (if existing (f.path_exists path) then has_type (f.file_type path) t else false)

-- checkTypeInternal.
check_type : Files → Bytes → PathType → Done
unfolding is_there require
check_type f path directory_or_create =
    if existing (f.path_exists path)
    then is_there f path is_directory
    else attempt_new (f.makes_dir path) (make_dir path) not_made
check_type f path directory = is_there f path is_directory
check_type f path file_or_create =
    if existing (f.path_exists path)
    then is_there f path is_file
    else attempt_new (f.makes_file path) (make_file path) not_made
check_type f path file = is_there f path is_file
check_type f path socket = require (has_type (f.file_type path) is_socket)
check_type f path char_dev = require (has_type (f.file_type path) is_char_dev)
check_type f path block_dev = require (has_type (f.file_type path) is_block_dev)
check_type f path unset = ([], some invalid_type)
check_type f path other = ([], some invalid_type)

-- SetUpAt of hostpath.
unfoldable pub set_up_host_path : Files → Bytes → PathType → Done
unfolding check_type
set_up_host_path f path t =
    if f.has_no_back_steps path then check_type f path t else ([], some back_steps)

-- `os.IsNotExist(err)`: any other error of Lstat makes no link, and is none of the result.
unfoldable pub link_if_lacking : Files → Bytes → Bytes → Lstat → Done
link_if_lacking f path target lstat_absent =
    attempt (f.links path target) (symlink path target) not_linked
link_if_lacking f path target lstat_found = ([], none)
link_if_lacking f path target lstat_failed = ([], none)

unfoldable pub link_unset : Files → Bytes → Bytes → Option Bool → Done
link_unset f path target none = ([], some not_inspected)
link_unset f path target (some false) = ([], some no_path)
link_unset f path target (some true) =
    attempt (f.links path target) (symlink path target) not_linked

-- The case HostPath of mountVolumeSource; `target` is the path of the volume.
unfoldable pub mount_host_path : Files → Bytes → Option PathType → Bytes → Done
unfolding link_unset link_if_lacking
mount_host_path f path none target = link_unset f path target (f.path_exists path)
mount_host_path f path (some unset) target = link_unset f path target (f.path_exists path)
mount_host_path f path (some t) target =
    set_up_host_path f path t then link_if_lacking f path target (f.lstat target)
