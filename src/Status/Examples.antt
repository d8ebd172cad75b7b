-- ===== src/Status/Examples.antt =====
-- Tests and instances for internal/compute/podhandler/podStatus.go.
use hpktainer.Classifier.{classify, classify_all, classify_state}
use hpktainer.Base.{
  ◌≡◌, ◌≢◌, refl, ap, inr, false, none, some, List, [], ◌∷◌, Bytes, codes, map, length, beq, arith,
  All, if◌then◌else◌,
}
use hpktainer.Base.{
  join_path, join, split, trim_left, atoi, parse_magnitude, int32, insert, format_uint, scan_digits,
  clean, is_abs, insert_sorted, leb_bytes, sort_strings, trim_space,
}
use hpktainer.Containers.{
  sync_container_statuses, read_int_from_file, read_string_from_file, to_terminated, to_running,
}
use hpktainer.Endpoint.{control_file_dir, ip_address_path}
use hpktainer.Conditions.{set_pod_status_condition}
use hpktainer.Status.{
  check_phase, check_init, load_ip, add_condition, and_then, check_supported, finish, init_loop,
  initialized, is_initializing, phase_transition_sequence, run_transitions, set_phase, set_pod_ip,
  set_ready_conditions,
}
use hpktainer.Endpoint.{pod_path, exit_code_path, id_path}
use hpktainer.Pod.{Phase, pending, running, Pod, ContainerStatus, ContainerState}
use hpktainer.Containers.{content, not_exist, Disk, handle_status}
use hpktainer.Status.{transition, update_status_from_runtime, unsupported_fields}
use hpktainer.Status.Lifecycle.{decide, update-decide}
use hpktainer.Status.Startup.{running_after-init, Completed}

abbrev no_state : ContainerState
no_state = record { waiting = none; running = none; terminated = none }

abbrev container : Bytes → ContainerState → ContainerStatus
container name state = record {
  name = name;
  state = state;
  last_termination_state = no_state;
  ready = false;
  restart_count = 0;
  container_id = [];
  started = none;
}

abbrev pod_in : Phase → List ContainerStatus → List ContainerStatus → Pod
pod_in phase inits statuses = record {
  namespace = codes "ns";
  name = codes "p";
  resource_version = [];
  annotations = [];
  node_name = codes "n";
  has_dns_config = false;
  termination_grace_period_seconds = none;
  init_containers = map (λ (s : ContainerStatus). s.name) inits;
  containers = codes "main" ∷ codes "sidecar" ∷ [];
  status = record {
    phase = phase;
    conditions = [];
    message = [];
    reason = [];
    host_ip = [];
    pod_ip = codes "10.0.0.1";
    pod_ips = [];
    init_container_statuses = inits;
    container_statuses = statuses;
  };
}

abbrev statuses : List ContainerStatus
statuses =
    container (codes "main") (record no_state { running = some 3 })
    ∷ container (codes "sidecar") no_state
    ∷ []

abbrev inits : List ContainerStatus
inits = container (codes "prepare") no_state ∷ []

abbrev dir : Bytes
dir = pod_path (codes "/h") (codes "ns") (codes "p")

-- The init container has ended well and both containers run.
abbrev disk : Disk
disk path attempt =
    if beq path (exit_code_path dir (codes "prepare"))
    then content (codes "0")
    else if beq path (id_path dir (codes "main"))
    then content (codes "pid://7:9")
    else if beq path (id_path dir (codes "sidecar"))
    then content (codes "pid://8:9")
    else not_exist

other : codes "main" ≢ codes "sidecar"
other e = absurd (omega (arith, ap (λ (x : Bytes). length x) e))

update-decide_example :
    (update_status_from_runtime disk (codes "/h") 5 [] (pod_in running [] statuses)).status.phase
    ≡ decide (map (handle_status disk dir 5) statuses)
update-decide_example =
    update-decide disk (codes "/h") 5 [] (pod_in running [] statuses) refl ((other, tt), (tt, tt))
      refl

supported : (is ss : List ContainerStatus) → unsupported_fields (pod_in pending is ss) ≡ []
unfolding unsupported_fields beq
supported is ss = refl

started :
    (update_status_from_runtime disk (codes "/h") 5 [] (pod_in pending inits statuses)).status.phase
    ≡ running
unfolding update_status_from_runtime check_phase check_init sync_container_statuses load_ip beq
    handle_status read_int_from_file exit_code_path join_path pod_path join split trim_left atoi
    parse_magnitude to_terminated to_running int32 insert format_uint scan_digits clean is_abs
    insert_sorted leb_bytes sort_strings trim_space set_pod_status_condition read_string_from_file
    control_file_dir id_path ip_address_path add_condition and_then check_supported classify
    classify_all classify_state finish init_loop initialized is_initializing
    phase_transition_sequence run_transitions set_phase set_pod_ip set_ready_conditions transition
    unsupported_fields
started = refl

running_after-init_example : All Completed (map (handle_status disk dir 5) inits)
running_after-init_example =
    running_after-init disk (codes "/h") 5 [] (pod_in pending inits statuses) (inr refl)
      (supported inits statuses) started
