-- ===== src/Pause/Preparation/Steps.antt =====
-- cleanEnvironment, prepareApptainerRuntimeDirs and prepareContainers of cmd/hpk-pause/main.go, and
-- the environment in which the containers are then started.
pub mod Environment
mod Examples
use hpktainer.Base.{
  Option, none, some, List, [], ◌∷◌, Bytes, codes, ◌≡◌, refl, ap, ◌∙◌, arith, if◌then◌else◌, lookup,
  insert, delete, lookup-insert, lookup-delete, beq, any,
}
use hpktainer.Pause.Preparation.{
  Address, Host, DnsPod, Variables, no_runtime_dir, Done, ◌then◌, attempt_dir, prepare_dns,
  announce_ip,
}

abbrev pub cleared_names : List Bytes
cleared_names =
    codes "LD_LIBRARY_PATH"
    ∷ codes "SINGULARITY_COMMAND"
    ∷ codes "SINGULARITY_CONTAINER"
    ∷ codes "SINGULARITY_ENVIRONMENT"
    ∷ codes "SINGULARITY_NAME"
    ∷ codes "SINGULARITY_BIND"
    ∷ codes "SINGULARITY_BINDPATH"
    ∷ codes "SINGULARITY_MOUNT"
    ∷ codes "APPTAINER_APPNAME"
    ∷ codes "APPTAINER_COMMAND"
    ∷ codes "APPTAINER_CONTAINER"
    ∷ codes "APPTAINER_ENVIRONMENT"
    ∷ codes "APPTAINER_NAME"
    ∷ codes "APPTAINER_BIND"
    ∷ codes "APPTAINER_BINDPATH"
    ∷ codes "APPTAINER_MOUNT"
    ∷ []

unset_all : List Bytes → Variables → Variables
unset_all [] env = env
unset_all (name ∷ names) env = unset_all names (delete name env)

-- cleanEnvironment.
pub clean_environment : Variables → Variables
unfolding unset_all
clean_environment env = unset_all cleared_names env

set_all : List (Bytes × Bytes) → Variables → Variables
set_all [] env = env
set_all ((name, value) ∷ settings) env = set_all settings (insert name value env)

abbrev pub tmp_dir : Bytes
tmp_dir = codes "/tmp/.hpk-apptainer/tmp"

abbrev pub cache_dir : Bytes
cache_dir = codes "/tmp/.hpk-apptainer/cache"

abbrev pub runtime_settings : List (Bytes × Bytes)
runtime_settings =
    (codes "APPTAINER_TMPDIR", tmp_dir)
    ∷ (codes "SINGULARITY_TMPDIR", tmp_dir)
    ∷ (codes "TMPDIR", tmp_dir)
    ∷ (codes "APPTAINER_CACHEDIR", cache_dir)
    ∷ (codes "SINGULARITY_CACHEDIR", cache_dir)
    ∷ []

set_after : Done → Variables → Done × Variables
unfolding set_all
set_after (effects, none) env = ((effects, none), set_all runtime_settings env)
set_after (effects, some e) env = ((effects, some e), env)

-- prepareApptainerRuntimeDirs.
pub prepare_apptainer_runtime_dirs : Host → Variables → Done × Variables
unfolding set_after
prepare_apptainer_runtime_dirs h env =
    set_after (attempt_dir h tmp_dir no_runtime_dir then attempt_dir h cache_dir no_runtime_dir) env

after_announce : Host → Done → Variables → Done × Variables
after_announce h (effects, some e) env = ((effects, some e), env)
after_announce h (effects, none) env =
    let (done, env') = prepare_apptainer_runtime_dirs h (clean_environment env) in
    ((effects, none) then done, env')

-- prepareContainers; `addresses` is what net.InterfaceAddrs gives the second time.
unfoldable pub prepare_containers :
    Host → Variables → DnsPod → Bytes → Option (List Address) → Done × Variables
unfolding after_announce
prepare_containers h env pod dir addresses =
    after_announce h (prepare_dns h env pod then announce_ip h dir addresses) env

-- The value that a list of settings leaves under a name.
abbrev pub set_value : Bytes → List (Bytes × Bytes) → Option Bytes → Option Bytes
set_value j [] old = old
set_value j ((name, value) ∷ settings) old =
    set_value j settings (if beq name j then some value else old)

lookup-set_all :
    (j : Bytes) (settings : List (Bytes × Bytes)) (env : Variables)
    → lookup j (set_all settings env) ≡ set_value j settings (lookup j env)
unfolding set_all
lookup-set_all j [] env = refl
lookup-set_all j ((name, value) ∷ settings) env =
    lookup-set_all j settings (insert name value env)
    ∙ ap (set_value j settings) (lookup-insert name j value env)

lookup-unset_all :
    (j : Bytes) (names : List Bytes) (env : Variables)
    → lookup j (unset_all names env) ≡ (if any (λ n. beq n j) names then none else lookup j env)
unfolding unset_all
lookup-unset_all j [] env = refl
lookup-unset_all j (name ∷ names) env =
    lookup-unset_all j names (delete name env) ∙ ground (arith, lookup-delete name j env)

set_after-lookup :
    (r : Done) (j : Bytes) (env : Variables)
    → (set_after r env).0.1 ≡ none
    → lookup j (set_after r env).1 ≡ set_value j runtime_settings (lookup j env)
unfolding set_after
set_after-lookup (effects, none) j env h = lookup-set_all j runtime_settings env
set_after-lookup (effects, some e) j env h = absurd (ground arith)

then_none : (a b : Done) → (a then b).1 ≡ none → b.1 ≡ none
then_none (effects, none) b h = h
then_none (effects, some e) b h = absurd (ground arith)

after_announce-lookup :
    (h : Host) (r : Done) (j : Bytes) (env : Variables)
    → (after_announce h r env).0.1 ≡ none
    → lookup j (after_announce h r env).1
      ≡ set_value j runtime_settings
          (if any (λ n. beq n j) cleared_names then none else lookup j env)
unfolding after_announce prepare_apptainer_runtime_dirs clean_environment
after_announce-lookup h (effects, some e) j env k = absurd (ground arith)
after_announce-lookup h (effects, none) j env k =
    let dirs = attempt_dir h tmp_dir no_runtime_dir then attempt_dir h cache_dir no_runtime_dir in
    set_after-lookup dirs j (unset_all cleared_names env)
      (then_none (effects, none) (set_after dirs (unset_all cleared_names env)).0 k)
    ∙ ap (set_value j runtime_settings) (lookup-unset_all j cleared_names env)

pub lookup-prepare_containers :
    (h : Host) (env : Variables) (pod : DnsPod) (dir : Bytes) (addresses : Option (List Address))
    (j : Bytes)
    → (prepare_containers h env pod dir addresses).0.1 ≡ none
    → lookup j (prepare_containers h env pod dir addresses).1
      ≡ set_value j runtime_settings
          (if any (λ n. beq n j) cleared_names then none else lookup j env)
unfolding prepare_containers
lookup-prepare_containers h env pod dir addresses j k =
    after_announce-lookup h (prepare_dns h env pod then announce_ip h dir addresses) j env k
