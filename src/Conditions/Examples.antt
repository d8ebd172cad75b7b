-- ===== src/Conditions/Examples.antt =====
-- Tests and instances for pkg/crdtools/pod-conditions.go and internal/compute/errors.go.
use hpktainer.Base.{◌≡◌, refl, [], ◌∷◌, codes, beq}
use hpktainer.Pod.{Condition, status_true, pod_ready}
use hpktainer.Conditions.{update_condition, set_pod_status_condition, pod_unready}

abbrev ready : Condition
ready = record {
  type = pod_ready;
  status = status_true;
  last_probe_time = 0;
  last_transition_time = 5;
  reason = codes "PodReady";
  message = [];
}

abbrev later_false : Condition
later_false = pod_unready 9 (codes "x")

status_changed : set_pod_status_condition 7 (ready ∷ []) later_false ≡ later_false ∷ []
unfolding set_pod_status_condition beq update_condition
status_changed = refl
