-- ===== src/Pause/Arguments.antt =====
-- executeContainer of cmd/hpk-pause/main.go: the mounts and the command line of a container. The
-- answers of the system are a record; shellescape.Quote is an argument.
pub mod Total
use hpktainer.Base.{
  ℕ, Bool, Option, none, some, List, [], ◌∷◌, ◌++◌, Bytes, codes, ℤ, is_zero, itoa, if◌then◌else◌,
  beq, is_abs, join_path, join, ◌&&◌,
}
use hpktainer.Endpoint.{hpk_path, pod_path, image_dir}
use hpktainer.Expansion.Callers.{
  EnvVar, MountExpansion, expanded, missing_value, expand_container_command_only_static,
  expand_container_volume_mounts,
}
use hpktainer.Security.{
  PodSecurityContext, SecurityContext, determine_effective_security_context,
  determine_effective_run_as_user,
}
use hpktainer.Image.{parse_image_name}

-- The parts of corev1.VolumeMount, corev1.Container and corev1.Pod that are read. A nil command is
-- `none`; `working_directory` is the annotation.
pub record VolumeMount : Type 0 where
  pub name : Bytes
  pub mount_path : Bytes
  pub sub_path : Bytes
  pub sub_path_expr : Bytes
  pub read_only : Bool

pub record Container : Type 0 where
  pub name : Bytes
  pub image : Bytes
  pub command : Option (List Bytes)
  pub args : List Bytes
  pub env : List EnvVar
  pub volume_mounts : List VolumeMount
  pub security_context : Option SecurityContext

pub record PausePod : Type 0 where
  pub namespace : Bytes
  pub name : Bytes
  pub working_directory : Bytes
  pub security_context : Option PodSecurityContext

-- What the system answers: whether the environment file and resolv.conf are there (and the
-- environment file when it is looked for again), the output of the environment file unless it fails,
-- which files can be written, the pid of the command unless it cannot be started, its start time (0 if
-- unknown), the exit code of the process state if there is one, and whether Wait gives no error.
pub record Host : Type 0 where
  pub is_debug : Bool
  pub has_env_file : Bool
  pub has_env_file_later : Bool
  pub has_resolv_conf : Bool
  pub env_output : Option Bytes
  pub env_writable : Bool
  pub log_creatable : Bool
  pub id_writable : Bool
  pub exit_code_writable : Bool
  pub started : Option ℕ
  pub start_time : ℕ
  pub exit_code : Option ℤ
  pub wait_ok : Bool

-- The errors; `panics` is a panic of Expand.
pub data ExecError : Type 0 where
  env_file_failed env_file_not_written absolute_sub_path log_not_created start_failed : ExecError
  id_not_written exit_code_not_written container_failed panics : ExecError
  sub_path_missing : List Bytes → ExecError

pub data Result {ℓ} (A : Type ℓ) : Type ℓ where
  ok : A → Result A
  err : ExecError → Result A

-- podPath of the pod.
pub pod_dir : PausePod → Bytes
pod_dir pod = pod_path (hpk_path pod.working_directory) pod.namespace pod.name

instance_name : PausePod → Container → Bytes
instance_name pod c = pod.namespace ++ (codes "_" ++ (pod.name ++ (codes "_" ++ c.name)))

pub env_file_name : PausePod → Container → Bytes
unfolding instance_name
env_file_name pod c = join_path (codes "/scratch" ∷ (instance_name pod c ++ codes ".env") ∷ [])

-- The lines `NAME=<quoted value>` of the file for --env-file.
pub env_lines : (Bytes → Bytes) → List EnvVar → Bytes
env_lines quote [] = []
env_lines quote (e ∷ es) =
    e.name ++ (codes "=" ++ (quote e.value ++ (codes "\n" ++ env_lines quote es)))

-- The sub path of a mount.
unfoldable pub of_expansion : Option MountExpansion → Result Bytes
of_expansion none = err panics
of_expansion (some (expanded path)) = ok path
of_expansion (some (missing_value names)) = err (sub_path_missing names)

unfoldable pub sub_path : VolumeMount → List EnvVar → Result Bytes
unfolding of_expansion
sub_path m envs =
    if beq m.sub_path_expr []
    then ok m.sub_path
    else of_expansion (expand_container_volume_mounts m.sub_path_expr envs)

-- What is mounted: the directory of the volume, or the path below it.
unfoldable pub below : Bytes → Bytes → Result Bytes
below host_path path =
    if beq path []
    then ok host_path
    else if is_abs path
    then err absolute_sub_path
    else ok (join_path (host_path ∷ path ∷ []))

unfoldable pub bind_text : VolumeMount → Bytes → Bytes
bind_text m host_path =
    host_path
    ++ (codes ":"
        ++ (m.mount_path ++ (codes ":" ++ (if m.read_only then codes "ro" else codes "rw"))))

infixl 5 ◌>>=◌
abbrev pub ◌>>=◌ {ℓ κ} : {A : Type ℓ} {B : Type κ} → Result A → (A → Result B) → Result B
ok a >>= f = f a
err e >>= f = err e

unfoldable pub bind_mount : Bytes → List EnvVar → VolumeMount → Result Bytes
unfolding sub_path below bind_text
bind_mount volumes envs m = do
  path ← sub_path m envs
  host_path ← below (join_path (volumes ∷ m.name ∷ [])) path
  ok (bind_text m host_path)

-- The loop over the mounts.
unfoldable pub bind_mounts : Bytes → List EnvVar → List VolumeMount → Result (List Bytes)
unfolding bind_mount
bind_mounts volumes envs [] = ok []
bind_mounts volumes envs (m ∷ ms) = do
  bind ← bind_mount volumes envs m
  binds ← bind_mounts volumes envs ms
  ok (bind ∷ binds)

mapped_binds : Bool → List Bytes → List Bytes
mapped_binds has_resolv_conf binds =
    if has_resolv_conf
    then codes "/scratch/etc/resolv.conf:/etc/resolv.conf"
      ∷ codes "/scratch/etc/hosts:/etc/hosts"
      ∷ binds
    else binds

bind_args : List Bytes → List Bytes
bind_args [] = []
bind_args (b ∷ binds) = codes "--bind" ∷ join (b ∷ binds) b',' ∷ []

security_args : ℤ × ℤ → List Bytes
security_args (uid, gid) =
    if is_zero uid && is_zero gid
    then []
    else codes "--security"
      ∷ (codes "uid:" ++ (itoa uid ++ (codes ",gid:" ++ itoa gid)))
      ∷ codes "--userns"
      ∷ []

words : Option (List Bytes) → Result (List Bytes)
words none = err panics
words (some ws) = ok ws

execution_mode : Option (List Bytes) → Bytes
execution_mode none = codes "run"
execution_mode (some command) = codes "exec"

or_empty : Option (List Bytes) → List Bytes
or_empty none = []
or_empty (some command) = command

-- The arguments of apptainer.
pub apptainer_args : Host → PausePod → Container → List Bytes → Result (List Bytes)
unfolding mapped_binds bind_args security_args words execution_mode or_empty env_file_name
apptainer_args h pod c binds = do
  command ← words (expand_container_command_only_static (or_empty c.command) c.env)
  args ← words (expand_container_command_only_static c.args c.env)
  let context = determine_effective_security_context pod.security_context c.security_context
  ok (
      ((if h.is_debug then codes "--debug" else codes "--quiet")
        ∷ execution_mode c.command
        ∷ codes "--nv"
        ∷ codes "--cleanenv"
        ∷ codes "--writable-tmpfs"
        ∷ codes "--no-mount"
        ∷ codes "home,bind-paths"
        ∷ codes "--unsquash"
        ∷ [])
      ++ (bind_args (mapped_binds h.has_resolv_conf binds)
          ++ (security_args (determine_effective_run_as_user context)
              ++ ((if h.has_env_file_later
                    then codes "--env-file" ∷ env_file_name pod c ∷ []
                    else [])
                  ++ ((image_dir (hpk_path pod.working_directory) ++ parse_image_name c.image)
                      ∷ (command ++ args))))))
