-- ===== src/Status.antt =====
-- internal/compute/podhandler/podStatus.go: UpdateStatusFromRuntime and its Classifier.
pub mod Loading
pub mod Lifecycle
pub mod Startup
pub mod Examples
use hpktainer.Base.{
  ℕ, ◌+◌, Bool, true, false, Option, none, some, List, [], ◌∷◌, ◌++◌, Bytes, codes, is_zero, beq,
  ◌==◌, ltb, if◌then◌else◌, length, join, format_uint,
}
use hpktainer.Endpoint.{pod_path, ip_address_path}
use hpktainer.Pod.{
  Phase, unset, pending, running, succeeded, failed, Pod, ContainerStatus, Terminated, Condition,
  status_true, status_false, pod_initialized, containers_ready, pod_ready,
}
use hpktainer.Conditions.{set_pod_status_condition, pod_error}
use hpktainer.Classifier.{Classifier, reset, classify_all, list_jobs}
use hpktainer.Containers.{Disk, read_string_from_file, sync_container_statuses, has}

abbrev condition_of : Bytes → Bool → ℕ → Bytes → Bytes → Condition
condition_of type holds now reason message = record {
  type = type;
  status = if holds then status_true else status_false;
  last_probe_time = 0;
  last_transition_time = now;
  reason = reason;
  message = message;
}

add_condition : ℕ → Condition → Pod → Pod
add_condition now c pod = record pod {
  status = record (pod.status) {
    conditions = set_pod_status_condition now pod.status.conditions c;
  };
}

set_phase : Phase → Bytes → Bytes → Pod → Pod
set_phase phase reason message pod = record pod {
  status = record (pod.status) { phase = phase; reason = reason; message = message };
}

set_termination_conditions : ℕ → Pod → Pod
unfolding add_condition
set_termination_conditions now pod =
    add_condition now
      (condition_of pod_ready false now (codes "PodUnready")
        (codes "Pod Has been Successfully Terminated."))
      (add_condition now
        (condition_of containers_ready false now (codes "ContainersUnready")
          (codes "Pod Has been Successfully Terminated."))
        pod)

set_ready_conditions : ℕ → Pod → Pod
unfolding add_condition
set_ready_conditions now pod =
    add_condition now
      (condition_of pod_ready true now (codes "PodReady")
        (codes "the pod is able to service requests"))
      (add_condition now
        (condition_of containers_ready true now (codes "ContainersReady")
          (codes " all containers in the pod are ready."))
        pod)

invalid_message : Classifier → Bytes
invalid_message c =
    codes "Invalid container state transition (pending: "
    ++ (format_uint (length c.pending_jobs)
        ++ (codes ", running: "
            ++ (format_uint (length c.running_jobs)
                ++ (codes ", succeeded: "
                    ++ (format_uint (length c.successful_jobs)
                        ++ (codes ", failed: "
                            ++ (format_uint (length c.failed_jobs) ++ codes ")")))))))

-- One entry of phaseTransitionSequence.
pub record Transition : Type 0 where
  pub expression : Bool
  pub change : Pod → Pod

phase_transition_sequence : ℕ → ℕ → Classifier → List Transition
unfolding set_phase set_termination_conditions set_ready_conditions
phase_transition_sequence now total c =
    record {
      expression = ltb 0 (length c.failed_jobs);
      change = λ pod. set_termination_conditions now (
          set_phase failed (codes "ContainerFailed")
            (codes "Failed containers: " ++ list_jobs c.failed_jobs) pod);
    }
    ∷ record {
      expression = length c.successful_jobs == total;
      change = λ pod. set_termination_conditions now (
          set_phase succeeded (codes "Completed")
            (codes "Success containers: " ++ list_jobs c.successful_jobs) pod);
    }
    ∷ record {
      expression = length c.running_jobs + length c.successful_jobs == total;
      change = λ pod.
          set_ready_conditions now
            (set_phase running (codes "Running") (codes "at least one pod is still running") pod);
    }
    ∷ record {
      expression = ltb 0 (length c.pending_jobs);
      change = λ pod.
          set_phase pending (codes "InQueue") (codes "PendingJobs: " ++ list_jobs c.pending_jobs)
            pod;
    }
    ∷ record {
      expression = true;
      change = λ pod. set_phase failed (codes "PodFailure") (invalid_message c) pod;
    }
    ∷ []

-- The loop over the sequence, with the error behind it. The message of that error prints Go maps and
-- is not modelled further: it is an argument.
run_transitions : ℕ → Bytes → List Transition → Pod → Pod
run_transitions now message [] pod = pod_error now pod (codes "StatusError") message
run_transitions now message (t ∷ ts) pod =
    let rest = run_transitions now message ts pod in if t.expression then t.change pod else rest

-- podWithExplicitlyUnsupportedFields: the fields that are refused.
unfoldable pub unsupported_fields : Pod → List Bytes
unsupported_fields pod =
    (if beq pod.namespace (codes "kube-system")
      then codes ".Meta.Namespace == 'kube-system'" ∷ []
      else [])
    ++ (if pod.has_dns_config then codes ".Spec.DNSConfig" ∷ [] else [])

-- The pod if it may go on, or the failed pod.
pub data Checked : Type 0 where
  proceed : Pod → Checked
  stop : Pod → Checked

check_supported : ℕ → List Bytes → Pod → Checked
check_supported now [] pod = proceed pod
check_supported now (f ∷ fs) pod = stop (
    pod_error now pod (codes "UnsupportedFeatures")
      (codes "UnsupportedFeatures: " ++ join (f ∷ fs) b','))

-- The switch on the phase.
check_phase : ℕ → Phase → Pod → Checked
unfolding check_supported unsupported_fields
check_phase now unset pod = check_supported now (unsupported_fields pod) pod
check_phase now succeeded pod = stop pod
check_phase now failed pod = stop pod
check_phase now _ pod = proceed pod

set_pod_ip : Option Bytes → Pod → Pod
set_pod_ip none pod = pod
set_pod_ip (some ip) pod = record pod {
  status = record (pod.status) { pod_ip = ip; pod_ips = pod.status.pod_ips ++ ip ∷ [] };
}

pub load_ip : Disk → Bytes → Pod → Pod
unfolding set_pod_ip
load_ip disk hpk pod =
    if beq pod.status.pod_ip []
    then set_pod_ip
        (read_string_from_file (disk (ip_address_path (pod_path hpk pod.namespace pod.name)))) pod
    else pod

-- The loop over the init containers of a pod that is not yet running.
init_loop : ℕ → List ContainerStatus → Pod → Checked
init_loop now [] pod = proceed pod
init_loop now (s ∷ ss) pod = elim (s.state.terminated) [
  | none ↦ stop pod
  | some t ↦ elim (is_zero t.exit_code) [
    | true ↦ init_loop now ss pod
    | false ↦ stop (
        pod_error now pod (codes "InitializationError")
          (codes "Init container '" ++ (s.name ++ codes "' has failed")))
  ]
]

is_initializing : Phase → Bool
is_initializing unset = true
is_initializing pending = true
is_initializing _ = false

and_then : Checked → (Pod → Checked) → Checked
and_then (proceed pod) f = f pod
and_then (stop pod) f = stop pod

initialized : ℕ → Pod → Pod
unfolding add_condition
initialized now pod =
    let p =
      add_condition now
        (condition_of pod_initialized true now (codes "Initialized")
          (codes "all init containers in the pod have started successfully"))
        pod in
    record p {
      status = record (p.status) { message = codes "Waiting"; reason = codes "ContainerCreating" };
    }

check_init : ℕ → Pod → Checked
unfolding init_loop is_initializing and_then
check_init now pod =
    if is_initializing pod.status.phase
    then and_then (init_loop now pod.status.init_container_statuses pod)
        (λ p. proceed (initialized now p))
    else proceed pod

finish : Checked → (Pod → Pod) → Pod
finish (proceed pod) f = f pod
finish (stop pod) f = pod

-- What follows the init containers.
pub transition : ℕ → Bytes → Pod → Pod
transition now message pod =
    run_transitions now message
      (phase_transition_sequence now (length pod.containers)
        (classify_all reset pod.status.container_statuses))
      pod

-- UpdateStatusFromRuntime below the directory `hpk`, at the time `now`.
pub update_status_from_runtime : Disk → Bytes → ℕ → Bytes → Pod → Pod
unfolding and_then finish
update_status_from_runtime disk hpk now message pod =
    finish
      (and_then (check_phase now pod.status.phase pod)
        (λ p. check_init now (sync_container_statuses disk hpk now (load_ip disk hpk p))))
      (transition now message)
