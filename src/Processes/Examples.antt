-- ===== src/Processes/Examples.antt =====
-- Tests and instances for the process ids and the deletion of internal/compute/podhandler/podhandler.go.
use hpktainer.Identity.{Os, Probe, delivered, no_such_process}
use hpktainer.Base.{
  ℕ, ◌≡◌, refl, true, false, none, some, [], ◌∷◌, Bytes, codes, beq, All, if◌then◌else◌,
}
use hpktainer.Base.{
  trim_left, parse_magnitude, scan_digits, parse_uint, split, cut_prefix, trim_space, format_uint,
}
use hpktainer.Endpoint.{pod_path, pause_job_id_path, id_path}
use hpktainer.JobId.{parse_process_job_id, positive_int}
use hpktainer.Pod.{Pod, pending}
use hpktainer.Containers.{content, not_exist, Disk}
use hpktainer.Processes.{parse_process_pid, loaded, removed, Host, delete_pod, plain_pid}
use hpktainer.Processes.Deletion.{Justified, delete_pod-Justified}

plain : parse_process_pid (codes "pid://12:34") ≡ some (codes "12:34")
unfolding parse_process_pid plain_pid parse_process_job_id positive_int trim_space trim_left split
    cut_prefix parse_magnitude scan_digits parse_uint format_uint
plain = refl

abbrev pod : Pod
pod = record {
  namespace = codes "ns";
  name = codes "p";
  resource_version = [];
  annotations = [];
  node_name = codes "n";
  has_dns_config = false;
  termination_grace_period_seconds = none;
  init_containers = [];
  containers = codes "a" ∷ codes "b" ∷ [];
  status = record {
    phase = pending;
    conditions = [];
    message = [];
    reason = [];
    host_ip = [];
    pod_ip = [];
    pod_ips = [];
    init_container_statuses = [];
    container_statuses = [];
  };
}

abbrev dir : Bytes
dir = pod_path (codes "/h") (codes "ns") (codes "p")

abbrev disk : Disk
disk path attempt =
    if beq path (pause_job_id_path dir)
    then content (codes "pid://12:34")
    else if beq path (id_path dir (codes "a"))
    then content (codes "pid://12:34")
    else if beq path (id_path dir (codes "b"))
    then content (codes "pid://56")
    else not_exist

abbrev gone : ℕ → Probe
gone i = record {
  kill_zero = no_such_process;
  priority_esrch = false;
  pgid_esrch = false;
  stat = none;
}

abbrev os : Os
os = record {
  has_proc = false;
  stat_of = λ pid. none;
  on_sigterm = delivered;
  on_sigkill = delivered;
  probe = gone;
  late = λ i. 0;
}

abbrev host : Host
host = record {
  remove_all = removed;
  fakeroot_exec = false;
  remove_again = false;
  namespace_is_empty = true;
}

delete_pod-Justified_example :
    All
      (Justified disk pod dir os)
      (delete_pod (loaded pod) disk os host (codes "/h") (codes "ns") (codes "p") 7).0
delete_pod-Justified_example =
    delete_pod-Justified pod disk os host (codes "/h") (codes "ns") (codes "p") 7
