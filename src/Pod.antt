-- ===== src/Pod.antt =====
-- The parts of corev1.Pod (Kubernetes API types, version pinned in go.mod) that the code reads and
-- writes. A time is a number, and the zero time is 0; a nil pointer is `none`.
use hpktainer.Base.{ℕ, Bool, Option, List, Bytes, codes, ℤ}

-- corev1.PodPhase; `unset` is the empty text.
pub data Phase : Type 0 where
  unset pending running succeeded failed unknown : Phase

pub data ConditionStatus : Type 0 where
  status_true status_false status_unknown : ConditionStatus

pub record Condition : Type 0 where
  pub type : Bytes
  pub status : ConditionStatus
  pub last_probe_time : ℕ
  pub last_transition_time : ℕ
  pub reason : Bytes
  pub message : Bytes

abbrev pub pod_initialized : Bytes
pod_initialized = codes "Initialized"

abbrev pub containers_ready : Bytes
containers_ready = codes "ContainersReady"

abbrev pub pod_ready : Bytes
pod_ready = codes "Ready"

pub record Waiting : Type 0 where
  pub reason : Bytes
  pub message : Bytes

pub record Terminated : Type 0 where
  pub exit_code : ℤ
  pub signal : ℕ
  pub reason : Bytes
  pub message : Bytes
  pub started_at : ℕ
  pub finished_at : ℕ
  pub container_id : Bytes

-- corev1.ContainerState: the running state is the time at which it began.
pub record ContainerState : Type 0 where
  pub waiting : Option Waiting
  pub running : Option ℕ
  pub terminated : Option Terminated

pub record ContainerStatus : Type 0 where
  pub name : Bytes
  pub state : ContainerState
  pub last_termination_state : ContainerState
  pub ready : Bool
  pub restart_count : ℕ
  pub container_id : Bytes
  pub started : Option Bool

pub record PodStatus : Type 0 where
  pub phase : Phase
  pub conditions : List Condition
  pub message : Bytes
  pub reason : Bytes
  pub host_ip : Bytes
  pub pod_ip : Bytes
  pub pod_ips : List Bytes
  pub init_container_statuses : List ContainerStatus
  pub container_statuses : List ContainerStatus

pub record Pod : Type 0 where
  pub namespace : Bytes
  pub name : Bytes
  pub resource_version : Bytes
  pub annotations : List (Bytes × Bytes)
  pub node_name : Bytes
  pub has_dns_config : Bool
  pub termination_grace_period_seconds : Option ℤ
  pub init_containers : List Bytes
  pub containers : List Bytes
  pub status : PodStatus
