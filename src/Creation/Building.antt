-- ===== src/Creation/Building.antt =====
-- buildContainer of internal/compute/podhandler/container.go. The evaluation of GenerateEnvTemplate
-- and the answers of the file system are arguments; the image fields of the status are left out.
pub mod Mounts
pub mod Variables
pub mod Names
use hpktainer.Base.{
  ◌≡◌, refl, arith, Bool, true, false, Option, none, some, List, [], ◌∷◌, ◌++◌, Bytes, codes, ℤ,
  if◌then◌else◌, beq, is_abs, join_path,
}
use hpktainer.Pod.{ContainerStatus}
use hpktainer.Endpoint.{volume_dir, id_path, exit_code_path, logs_path, env_file_path, image_dir}
use hpktainer.Expansion.Callers.{
  EnvVar, MountExpansion, expanded, missing_value, expand_container_command_only_static,
  expand_container_volume_mounts,
}
use hpktainer.Security.{
  PodSecurityContext, determine_effective_security_context, determine_effective_run_as_user,
}
use hpktainer.Image.{Surroundings, Located, located, resolve_local, pull, docker}
use hpktainer.Pause.Arguments.{VolumeMount, Container}

-- A container of the specification, and whether its imagePullPolicy is Never.
pub record Spec : Type 0 where
  pub container : Container
  pub pull_never : Bool

-- PodHandler: the names of the pod, its security context, its directory and that of HPK, and the
-- variables of the services.
pub record Handler : Type 0 where
  pub namespace : Bytes
  pub pod_name : Bytes
  pub security_context : Option PodSecurityContext
  pub hpk : Bytes
  pub pod_directory : Bytes
  pub pod_env_variables : List EnvVar

-- What the system answers: the text of the environment script, whether a file can be written, whether
-- a path exists (none for an error), whether SafeMakeDir succeeds, and what a pull meets.
pub record Host : Type 0 where
  pub env_script : List EnvVar → Option Bytes
  pub can_write : Bytes → Bool
  pub path_exists : Bytes → Option Bool
  pub can_make_dir : Bytes → Bytes → Bool
  pub images : Surroundings

pub data BuildError : Type 0 where
  template_failed env_not_written absolute_sub_path exists_unknown dir_not_made : BuildError
  placeholder_not_written panics : BuildError
  sub_path_missing : List Bytes → BuildError
  image_failed : Located → BuildError

pub data Built {ℓ} (A : Type ℓ) : Type ℓ where
  ok : A → Built A
  err : BuildError → Built A

infixl 5 ◌>>=◌ ◌>>◌
abbrev pub ◌>>=◌ {ℓ κ} : {A : Type ℓ} {B : Type κ} → Built A → (A → Built B) → Built B
ok a >>= f = f a
err e >>= f = err e

abbrev pub ◌>>◌ {ℓ} : {B : Type ℓ} → Built (Unit {0}) → Built B → Built B
m >> k = m >>= λ _. k

-- Inversion of a step that succeeds.
pub >>=-eq-ok :
    {A B : Type 0} (m : Built A) (f : A → Built B) {b : B}
    → (m >>= f) ≡ ok b
    → (a : A) × ((m ≡ ok a) × (f a ≡ ok b))
>>=-eq-ok (ok a) f h = (a, (refl, h))
>>=-eq-ok (err e) f h = absurd (ground arith)

-- `if !done { return Container{}, e }`.
abbrev pub require : Bool → BuildError → Built (Unit {0})
require true e = ok tt
require false e = err e

-- The fields of the template Container.
pub record Template : Type 0 where
  pub instance_name : Bytes
  pub run_as_user : ℤ
  pub run_as_group : ℤ
  pub image_file_path : Bytes
  pub env_file_path : Bytes
  pub binds : List Bytes
  pub command : List Bytes
  pub args : List Bytes
  pub execution_mode : Bytes
  pub logs_path : Bytes
  pub job_id_path : Bytes
  pub exit_code_path : Bytes

or_error {ℓ} : {A : Type ℓ} → Option A → BuildError → Built A
or_error none e = err e
or_error (some a) e = ok a

-- `append(container.Env, h.podEnvVariables...)`.
unfoldable pub variables : Handler → Container → List EnvVar
variables h c = c.env ++ h.pod_env_variables

-- The value that the environment script prints: for .status.podIP what the `ip route` command prints,
-- which is `ip`.
unfoldable pub printed_value : Bytes → Bytes → Bytes
printed_value ip value = if beq value (codes ".status.podIP") then ip else value

-- The variables that the script of GenerateEnvTemplate prints.
unfoldable pub printed_variables : Bytes → List EnvVar → List EnvVar
unfolding printed_value
printed_variables ip [] = []
printed_variables ip (e ∷ envs) =
    record { name = e.name; value = printed_value ip e.value } ∷ printed_variables ip envs

write_env_file : Host → Handler → Container → Built (Unit {0})
unfolding variables or_error
write_env_file host h c = do
  script ← or_error (host.env_script (variables h c)) template_failed
  require (host.can_write (env_file_path h.pod_directory c.name)) env_not_written

of_expansion : Option MountExpansion → Built Bytes
of_expansion none = err panics
of_expansion (some (expanded path)) = ok path
of_expansion (some (missing_value names)) = err (sub_path_missing names)

-- The sub path of a mount; an expression is expanded with the variables of the services.
unfoldable pub sub_path : Handler → VolumeMount → Built Bytes
unfolding of_expansion
sub_path h m =
    if beq m.sub_path_expr []
    then ok m.sub_path
    else of_expansion (expand_container_volume_mounts m.sub_path_expr h.pod_env_variables)

-- The placeholder for a path that does not exist.
make_placeholder : Host → VolumeMount → Bytes → Bytes → Bytes → Option Bool → Built (Unit {0})
make_placeholder host m host_path path file none = err exists_unknown
make_placeholder host m host_path path file (some true) = ok tt
make_placeholder host m host_path path file (some false) =
    if beq m.sub_path (codes "0")
    then require (host.can_make_dir path host_path) dir_not_made
    else require (host.can_write file) placeholder_not_written

-- What is mounted: the directory of the volume, or the path below it.
below : Host → VolumeMount → Bytes → Bytes → Built Bytes
unfolding make_placeholder
below host m host_path path =
    if beq path [] then ok host_path else if is_abs path then err absolute_sub_path else (do
      make_placeholder host m host_path path (join_path (host_path ∷ path ∷ []))
          (host.path_exists (join_path (host_path ∷ path ∷ [])))
      ok (join_path (host_path ∷ path ∷ [])))

bind_text : VolumeMount → Bytes → Bytes
bind_text m host_path =
    host_path
    ++ (codes ":"
        ++ (m.mount_path ++ (codes ":" ++ (if m.read_only then codes "ro" else codes "rw"))))

unfoldable pub bind_mount : Host → Handler → VolumeMount → Built Bytes
unfolding below bind_text
bind_mount host h m = do
  path ← sub_path h m
  host_path ← below host m (join_path (volume_dir h.pod_directory ∷ m.name ∷ [])) path
  ok (bind_text m host_path)

-- The loop over the mounts.
unfoldable pub bind_mounts : Host → Handler → List VolumeMount → Built (List Bytes)
bind_mounts host h [] = ok []
bind_mounts host h (m ∷ ms) = do
  bind ← bind_mount host h m
  binds ← bind_mounts host h ms
  ok (bind ∷ binds)

of_located : Located → Built Bytes
of_located (located path) = ok path
of_located e = err (image_failed e)

find_image : Host → Handler → Spec → Built Bytes
unfolding of_located
find_image host h s = of_located (
    if s.pull_never
    then resolve_local host.images.stat (image_dir h.hpk) s.container.image
    else (pull host.images (image_dir h.hpk) docker s.container.image).1)

or_empty : Option (List Bytes) → List Bytes
or_empty none = []
or_empty (some command) = command

execution_mode : Option (List Bytes) → Bytes
execution_mode none = codes "run"
execution_mode (some command) = codes "exec"

container_id : Handler → Container → Bytes
container_id h c = h.namespace ++ (codes "_" ++ (h.pod_name ++ (codes "_" ++ c.name)))

-- The template, and the status with its name and its container id.
unfoldable pub build_container :
    Host → Handler → Spec → ContainerStatus → Built (Template × ContainerStatus)
unfolding write_env_file find_image or_empty execution_mode container_id or_error
build_container host h s status = do
  let c = s.container
  write_env_file host h c
  binds ← bind_mounts host h c.volume_mounts
  path ← find_image host h s
  command ← or_error (expand_container_command_only_static (or_empty c.command) c.env) panics
  args ← or_error (expand_container_command_only_static c.args c.env) panics
  let context = determine_effective_security_context h.security_context c.security_context
  let (uid, gid) = determine_effective_run_as_user context
  ok (
    record {
      instance_name = container_id h c;
      run_as_user = uid;
      run_as_group = gid;
      image_file_path = path;
      env_file_path = env_file_path h.pod_directory c.name;
      binds = binds;
      command = command;
      args = args;
      execution_mode = execution_mode c.command;
      logs_path = logs_path h.pod_directory c.name;
      job_id_path = id_path h.pod_directory c.name;
      exit_code_path = exit_code_path h.pod_directory c.name;
    },
    record status { name = c.name; container_id = container_id h c },
  )
