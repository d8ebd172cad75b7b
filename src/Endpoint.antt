-- ===== src/Endpoint.antt =====
-- internal/compute/endpoint/paths.go: where HPK keeps a pod's files. A path is its text.
mod Examples
use hpktainer.Base.{Bytes, [], ◌∷◌, ◌++◌, codes, join_path}

abbrev pub extension_sys_error : Bytes
extension_sys_error = codes ".syserror"

abbrev pub extension_ip : Bytes
extension_ip = codes ".ip"

abbrev pub extension_exit_code : Bytes
extension_exit_code = codes ".exitCode"

abbrev pub extension_job_id : Bytes
extension_job_id = codes ".jobid"

abbrev pub extension_crd : Bytes
extension_crd = codes ".crd"

-- HPK(rootPath).
unfoldable pub hpk_path : Bytes → Bytes
hpk_path root_path = join_path (root_path ∷ codes ".hpk" ∷ [])

unfoldable pub image_dir : Bytes → Bytes
image_dir p = join_path (p ∷ codes ".images" ∷ [])

-- HPKPath.Pod of a namespace and a name.
unfoldable pub pod_path : Bytes → Bytes → Bytes → Bytes
pod_path p namespace name = join_path (p ∷ namespace ∷ name ∷ [])

unfoldable pub job_dir : Bytes → Bytes
job_dir p = join_path (p ∷ codes "job" ∷ [])

unfoldable pub volume_dir : Bytes → Bytes
volume_dir p = join_path (p ∷ codes "volumes" ∷ [])

unfoldable pub log_dir : Bytes → Bytes
log_dir p = join_path (p ∷ codes "logs" ∷ [])

unfoldable pub control_file_dir : Bytes → Bytes
control_file_dir p = join_path (p ∷ codes "controlfiles" ∷ [])

unfoldable pub encoded_json_path : Bytes → Bytes
unfolding job_dir
encoded_json_path p = join_path (job_dir p ∷ (codes "pod" ++ extension_crd) ∷ [])

unfoldable pub sys_error_file_path : Bytes → Bytes
unfolding control_file_dir
sys_error_file_path p = join_path (control_file_dir p ∷ extension_sys_error ∷ [])

unfoldable pub ip_address_path : Bytes → Bytes
unfolding control_file_dir
ip_address_path p = join_path (control_file_dir p ∷ extension_ip ∷ [])

unfoldable pub pause_job_id_path : Bytes → Bytes
unfolding control_file_dir
pause_job_id_path p = join_path (control_file_dir p ∷ (codes "pause" ++ extension_job_id) ∷ [])

-- ContainerPath.IDPath and ExitCodePath of a pod path and a container's name.
unfoldable pub id_path : Bytes → Bytes → Bytes
unfolding control_file_dir
id_path p container_name =
    join_path (control_file_dir p ∷ (container_name ++ extension_job_id) ∷ [])

unfoldable pub exit_code_path : Bytes → Bytes → Bytes
unfolding control_file_dir
exit_code_path p container_name =
    join_path (control_file_dir p ∷ (container_name ++ extension_exit_code) ∷ [])

abbrev pub extension_environment : Bytes
extension_environment = codes ".env"

abbrev pub extension_logs : Bytes
extension_logs = codes ".logs"

-- ContainerPath.LogsPath and EnvFilePath.
unfoldable pub logs_path : Bytes → Bytes → Bytes
unfolding log_dir
logs_path p container_name = join_path (log_dir p ∷ (container_name ++ extension_logs) ∷ [])

unfoldable pub env_file_path : Bytes → Bytes → Bytes
unfolding job_dir
env_file_path p container_name =
    join_path (job_dir p ∷ (container_name ++ extension_environment) ∷ [])

abbrev pub extension_stdout : Bytes
extension_stdout = codes ".stdout"

abbrev pub extension_stderr : Bytes
extension_stderr = codes ".stderr"

unfoldable pub cgroup_file_path : Bytes → Bytes
unfolding job_dir
cgroup_file_path p = join_path (job_dir p ∷ codes "cgroup.toml" ∷ [])

unfoldable pub submit_job_path : Bytes → Bytes
unfolding job_dir
submit_job_path p = join_path (job_dir p ∷ codes "submit.sh" ∷ [])

unfoldable pub stdout_path : Bytes → Bytes
unfolding log_dir
stdout_path p = join_path (log_dir p ∷ extension_stdout ∷ [])

unfoldable pub stderr_path : Bytes → Bytes
unfolding log_dir
stderr_path p = join_path (log_dir p ∷ extension_stderr ∷ [])
