-- ===== src/Conditions.antt =====
-- pkg/crdtools/pod-conditions.go and PodError of internal/compute/errors.go. `now` is what time.Now
-- reads; a nil list of conditions is the empty list.
pub mod Laws
pub mod Examples
use hpktainer.Base.{
  ℕ, Bool, true, false, Option, none, some, List, [], ◌∷◌, Bytes, codes, beq, ◌==◌, if◌then◌else◌,
}
use hpktainer.Pod.{
  ConditionStatus, status_true, status_false, status_unknown, Condition, Pod, failed, pod_ready,
}

-- FindStatusCondition.
pub find_status_condition : List Condition → Bytes → Option Condition
find_status_condition [] t = none
find_status_condition (c ∷ cs) t = if beq c.type t then some c else find_status_condition cs t

-- `!=` on condition statuses.
pub same_status : ConditionStatus → ConditionStatus → Bool
same_status status_true status_true = true
same_status status_false status_false = true
same_status status_unknown status_unknown = true
same_status _ _ = false

-- `if t.IsZero() { t = metav1.NewTime(time.Now()) }`.
abbrev pub or_now : ℕ → ℕ → ℕ
or_now now t = if t == 0 then now else t

-- What is written into an existing condition.
pub update_condition : ℕ → Condition → Condition → Condition
unfolding same_status
update_condition now existing new =
    if same_status existing.status new.status
    then record existing { reason = new.reason; message = new.message }
    else record existing {
      status = new.status;
      last_transition_time = or_now now new.last_transition_time;
      reason = new.reason;
      message = new.message;
    }

-- The new condition as it is appended.
pub first_condition : ℕ → Condition → Condition
first_condition now new = record new { last_transition_time = or_now now new.last_transition_time }

-- SetPodStatusCondition: the first condition of the type is written through the pointer that
-- FindStatusCondition returns, or a condition is appended.
unfoldable pub set_pod_status_condition : ℕ → List Condition → Condition → List Condition
unfolding first_condition
set_pod_status_condition now [] new = first_condition now new ∷ []
set_pod_status_condition now (c ∷ cs) new =
    if beq c.type new.type
    then update_condition now c new ∷ cs
    else c ∷ set_pod_status_condition now cs new

abbrev pub pod_unready : ℕ → Bytes → Condition
pod_unready now message = record {
  type = pod_ready;
  status = status_false;
  last_probe_time = 0;
  last_transition_time = now;
  reason = codes "PodUnready";
  message = message;
}

-- PodError, with the formatted message.
unfoldable pub pod_error : ℕ → Pod → Bytes → Bytes → Pod
pod_error now pod reason message = record pod {
  status = record (pod.status) {
    phase = failed;
    reason = reason;
    message = message;
    conditions =
        set_pod_status_condition now pod.status.conditions
          (pod_unready now (codes "Pod Has Failed."));
  };
}
