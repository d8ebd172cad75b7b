-- ===== src/Provider/Examples.antt =====
-- Tests and instances for internal/provider/provider.go.
use hpktainer.Identity.{Os, delivered, no_such_process}
use hpktainer.Base.{
  inr, arith, ◌≡◌, refl, Bool, true, false, none, some, List, [], ◌∷◌, Bytes, codes, beq, lookup,
  parse_uint, scan_digits, Option, length, ◌==◌,
}
use hpktainer.Pod.{Pod, pending, ContainerStatus}
use hpktainer.Containers.{not_exist, Disk}
use hpktainer.Processes.{removed, Host}
use hpktainer.Provider.{
  is_older, has_job_id, update_pod, update_pods, saved, discarded, is_pod_owned_by_node, older,
}
use hpktainer.Status.{unsupported_fields}
use hpktainer.Pod.{failed}
use hpktainer.Provider.{reconcile_pod}
use hpktainer.Provider.Startup.{reconcile_pod-no_statuses}
use hpktainer.Provider.Updates.{AtLeast, update_pods-AtLeast}

abbrev pod_at : Bytes → Bytes → Pod
pod_at version node = record {
  namespace = codes "ns";
  name = codes "p";
  resource_version = version;
  annotations = (codes "pod.hpk/id", codes "pid://0") ∷ [];
  node_name = node;
  has_dns_config = false;
  termination_grace_period_seconds = none;
  init_containers = [];
  containers = codes "a" ∷ [];
  status = record {
    phase = pending;
    conditions = [];
    message = [];
    reason = [];
    host_ip = [];
    pod_ip = [];
    pod_ips = [];
    init_container_statuses = [];
    container_statuses = [];
  };
}

newer :
    update_pod (some (pod_at (codes "9") [])) (pod_at (codes "10") []) true
    ≡ (saved, some (pod_at (codes "10") []))
unfolding update_pod is_older older has_job_id lookup beq parse_uint scan_digits
newer = refl

stale :
    update_pod (some (pod_at (codes "10") [])) (pod_at (codes "9") []) true
    ≡ (discarded, some (pod_at (codes "10") []))
unfolding update_pod is_older older parse_uint scan_digits
stale = refl

reads : (parse_uint (codes "9") ≡ some 9) × (parse_uint (codes "10") ≡ some 10)
unfolding parse_uint scan_digits
reads = (refl, refl)

update_pods-AtLeast_example :
    AtLeast
      (update_pods
        (some (pod_at (codes "9") []))
        ((pod_at (codes "10") [], true) ∷ (pod_at (codes "9") [], true) ∷ []))
      9
update_pods-AtLeast_example =
    update_pods-AtLeast (pod_at (codes "9") [])
      ((pod_at (codes "10") [], true) ∷ (pod_at (codes "9") [], true) ∷ []) 9 reads.0
      ((10, reads.1), ((9, reads.0), tt))

abbrev os : Os
os = record {
  has_proc = false;
  stat_of = λ pid. none;
  on_sigterm = delivered;
  on_sigkill = delivered;
  probe = λ i. record {
    kill_zero = no_such_process;
    priority_esrch = false;
    pgid_esrch = false;
    stat = none;
  };
  late = λ i. 0;
}

abbrev host : Host
host = record {
  remove_all = removed;
  fakeroot_exec = false;
  remove_again = false;
  namespace_is_empty = true;
}

abbrev empty_disk : Disk
empty_disk path attempt = not_exist

foreign : is_pod_owned_by_node (some (pod_at [] (codes "n2"))) (codes "n1") ≡ false
unfolding is_pod_owned_by_node beq
foreign = refl

abbrev same_length : List ContainerStatus → List ContainerStatus → Bool
same_length xs ys = length xs == length ys

abbrev pods : List (Option Pod × Bool)
pods =
    (some (pod_at [] (codes "n2")), true)
    ∷ (none, true)
    ∷ (some (pod_at [] (codes "n1")), true)
    ∷ []

abbrev early : Pod
early = pod_at [] (codes "n1")

early_owned : is_pod_owned_by_node (some early) (codes "n1") ≡ true
unfolding is_pod_owned_by_node beq
early_owned = refl

early_supported : unsupported_fields early ≡ []
unfolding unsupported_fields beq
early_supported = refl

reconcile_pod-no_statuses_example :
    (q : Pod) × (reconcile_pod same_length empty_disk (codes "/h") 5 [] (codes "n1") (some early)
      ≡ some q)
    × (q.status.phase ≡ failed)
    × (q.status.reason ≡ codes "PodFailure")
reconcile_pod-no_statuses_example =
    reconcile_pod-no_statuses same_length empty_disk (codes "/h") 5 [] (codes "n1") early
      early_owned (inr refl) early_supported refl refl (omega arith)
