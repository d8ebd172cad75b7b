-- ===== src/Creation/Sequence/Examples.antt =====
-- Tests and instances for the creation of pods in internal/compute/podhandler.
use hpktainer.Base.{
  true, false, none, some, [], ◌∷◌, Bytes, codes, ◌≡◌, refl, arith, lookup, beq, is_abs, join_path,
  join, split, has_prefix,
}
use hpktainer.Pod.{Pod, pending}
use hpktainer.Endpoint.{volume_dir}
use hpktainer.Expansion.{syntax_wrap}
use hpktainer.Expansion.Callers.{env_vars_to_map}
use hpktainer.Expansion.Callers.Environment.{last_value, lookup-env_vars_to_map}
use hpktainer.Image.{regular, resolve_local, pull}
use hpktainer.Image as Image
use hpktainer.Pause.Arguments as Pause
use hpktainer.Pause.Arguments.{VolumeMount, Container}
use hpktainer.Pause.EnvFile.{parse_env_vars, print_env_vars, Printable}
use hpktainer.Services.{from_services_for_pod}
use hpktainer.Expansion.Callers.{expand_container_command_only_static}
use hpktainer.Creation.Building as Building
use hpktainer.Creation.Building.{
  Handler, ok, bind_mounts, bind_mount, sub_path, build_container, variables, printed_variables,
}
use hpktainer.Creation.Building.Mounts.{bind_mounts-pause}
use hpktainer.Creation.Building.Variables.{fails, build_container-unset, lookup-variables}
use hpktainer.Creation.Saving.{Calls, Files, save_pod_to_file, expected, save_pod_to_file-expected}
use hpktainer.Creation.{
  Environment, PodSpec, Host, Creation, Flow, goes, stops, added, zero_status, check, save_pod,
  watched, mount_volumes, build_init, build_main, build_containers, is_built, built_first, prepend,
  is_located,
}
use hpktainer.Creation.Sequence.{create_pod}
use hpktainer.Creation.Sequence.Checks.{Follows}
use hpktainer.Creation.Sequence.Outcomes.{failure_of, services_of, create_pod-Follows}
use hpktainer.Creation.Sequence.Completion.{Complete, create_pod-Complete}

abbrev calls : Calls
calls = record {
  encoded = some (codes "new");
  tmp_file = some (codes ".crd-1.tmp");
  written = [];
  writes = true;
  chmods = true;
  closes = false;
  renames = true;
}

abbrev files : Files
files = (codes "pod.crd", codes "old") ∷ []

some_eq : {a b : Bytes} → some a ≡ some b → a ≡ b
some_eq e = cc

fresh : (name : Bytes) → some (codes ".crd-1.tmp") ≡ some name → lookup name files ≡ none
unfolding lookup beq
fresh name e = rw (← some_eq e) refl

save_pod_to_file-expected_example :
    let r = save_pod_to_file calls (some (codes "pod.crd")) files in
    lookup (codes "pod.crd") r.0
    ≡ expected (codes "pod.crd") (some (codes "new")) (codes "pod.crd") files r.1
save_pod_to_file-expected_example =
    save_pod_to_file-expected calls (codes "pod.crd") (codes "pod.crd") files fresh

abbrev images : Image.Surroundings
images = record {
  stat = λ p. regular;
  stat_locked = λ p. regular;
  unix_nano = 0;
  downloads = true;
  renames = true;
}

abbrev building : Building.Host
building = record {
  env_script = λ envs. some [];
  can_write = λ p. true;
  path_exists = λ p. some false;
  can_make_dir = λ p q. true;
  images = images;
}

abbrev environment : Environment
environment = record {
  kube_master_host = codes "10.0.0.1";
  kube_master_port = codes "6443";
  container_registry = [];
  apptainer_bin = codes "apptainer";
  enable_cgroup_v2 = false;
  working_directory = codes "/home/user";
  kube_dns = codes "10.0.0.10";
  pause_image = codes "hpk-pause";
  hpk = codes "/home/user/.hpk";
}

abbrev mount : VolumeMount
mount = record {
  name = codes "data";
  mount_path = codes "/data";
  sub_path = [];
  sub_path_expr = syntax_wrap (codes "A");
  read_only = true;
}

abbrev app : Container
app = record {
  name = codes "app";
  image = codes "busybox";
  command = none;
  args = [];
  env = record { name = codes "A"; value = codes "x" } ∷ [];
  volume_mounts = [];
  security_context = none;
}

abbrev handler : Handler
handler = record {
  namespace = codes "ns";
  pod_name = codes "web";
  security_context = none;
  hpk = codes "/h";
  pod_directory = codes "/h/ns/web";
  pod_env_variables = record { name = codes "A_PORT"; value = codes "80" } ∷ [];
}

abbrev host : Host
host = record {
  environment = environment;
  services = some [];
  can_make_dir = λ p. true;
  saves_early = true;
  saves_last = true;
  watch = added;
  mounts_volume = λ v. true;
  building = building;
  creates_cgroup_file = true;
  pause_images = images;
  parses_template = true;
  evaluates_template = true;
  writes_script = true;
  submits = true;
  message = λ reason. [];
}

abbrev spec : PodSpec
spec = record {
  enable_service_links = none;
  security_context = none;
  volumes = codes "data" ∷ [];
  init_containers = [];
  containers = record { container = app; pull_never = true } ∷ [];
}

abbrev pod : Pod
pod = record {
  namespace = codes "ns";
  name = codes "web";
  resource_version = [];
  annotations = [];
  node_name = [];
  has_dns_config = false;
  termination_grace_period_seconds = none;
  init_containers = [];
  containers = codes "app" ∷ [];
  status = record {
    phase = pending;
    conditions = [];
    message = [];
    reason = [];
    host_ip = [];
    pod_ip = [];
    pod_ips = [];
    init_container_statuses = [];
    container_statuses = [];
  };
}

create_pod-Follows_example :
    Follows pending
      (failure_of host spec pod (services_of host spec pod))
      (create_pod host 5 spec pod)
create_pod-Follows_example = create_pod-Follows host 5 spec pod

abbrev final : Flow → Creation
final (goes c) = c
final (stops c) = c

created : create_pod host 5 spec pod ≡ goes (final (create_pod host 5 spec pod))
unfolding create_pod from_services_for_pod check save_pod watched mount_volumes build_init
    build_main build_containers is_built built_first prepend build_container bind_mounts
    expand_container_command_only_static is_located pull resolve_local has_prefix env_vars_to_map
created = refl

create_pod-Complete_example : Complete spec (final (create_pod host 5 spec pod))
create_pod-Complete_example =
    create_pod-Complete host 5 spec pod (final (create_pod host 5 spec pod)) created

not_set : lookup (codes "A") (env_vars_to_map handler.pod_env_variables) ≡ none
unfolding beq
not_set = lookup-env_vars_to_map (codes "A") handler.pod_env_variables

build_container-unset_example :
    fails (
      build_container building handler
        (record { container = record app { volume_mounts = mount ∷ [] }; pull_never = false })
        zero_status)
    ≡ true
build_container-unset_example =
    build_container-unset building handler (codes "A") (omega arith) not_set
      (record { container = record app { volume_mounts = mount ∷ [] }; pull_never = false })
      zero_status [] [] mount refl refl

printable : Printable (printed_variables (codes "10.1.1.1") (variables handler app))
unfolding variables printed_variables beq
printable = ground arith

lookup-variables_example :
    lookup (codes "A") (
      env_vars_to_map (
        parse_env_vars
          (print_env_vars (printed_variables (codes "10.1.1.1") (variables handler app)))))
    ≡ last_value
        (codes "A")
        (printed_variables (codes "10.1.1.1") handler.pod_env_variables)
        (last_value (codes "A") (printed_variables (codes "10.1.1.1") app.env) none)
lookup-variables_example = lookup-variables handler app (codes "10.1.1.1") (codes "A") printable

abbrev plain_mount : VolumeMount
plain_mount = record mount { sub_path = codes "sub"; sub_path_expr = [] }

bound :
    bind_mounts building handler (plain_mount ∷ [])
    ≡ ok (codes "/h/ns/web/volumes/data/sub:/data:ro" ∷ [])
unfolding bind_mounts bind_mount sub_path beq is_abs join_path volume_dir join split
bound = refl

bind_mounts-pause_example :
    Pause.bind_mounts
      (volume_dir handler.pod_directory)
      handler.pod_env_variables
      (plain_mount ∷ [])
    ≡ Pause.ok (codes "/h/ns/web/volumes/data/sub:/data:ro" ∷ [])
bind_mounts-pause_example =
    bind_mounts-pause building handler (plain_mount ∷ [])
      (codes "/h/ns/web/volumes/data/sub:/data:ro" ∷ []) bound
