-- ===== src/Events/Examples.antt =====
-- Tests and instances for internal/compute/events/listener.go and ParseControlFilePath.
use hpktainer.Base.{
  ◌≡◌, refl, true, false, none, some, [], ◌∷◌, codes, is_abs, cut_prefix, trim_prefix, beq, ext,
  arith,
}
use hpktainer.Pod.{Pod, running}
use hpktainer.Events.{
  parse_control_file_path, match_path, match_namespace_rest, match_pod, match_pod_rest, match_file,
  push_pod, push_namespace, first_match, Event, PodControl, process_event, is_final, reaction,
}
use hpktainer.Events.ControlFile.{PlainName, parse_control_file_path-path}
use hpktainer.Events.Reactions.{process_event-exit_code}

-- A deeper directory of the same name is taken into the namespace.
deep :
    parse_control_file_path (codes "/h/.hpk") (codes "/h/.hpk/a/b/controlfiles/c/controlfiles/d")
    ≡ some (record { namespace = codes "a/b/controlfiles"; pod = codes "c"; file = codes "d" })
unfolding parse_control_file_path match_path match_namespace_rest match_pod match_pod_rest
    match_file push_pod push_namespace first_match is_abs cut_prefix trim_prefix
deep = refl

not_control : parse_control_file_path (codes "/h/.hpk") (codes "/h/.hpk/ns/p/logs/x") ≡ none
unfolding parse_control_file_path match_path match_namespace_rest match_pod match_pod_rest
    match_file push_pod push_namespace first_match is_abs cut_prefix trim_prefix
not_control = refl

absolute : is_abs (codes "/h") ≡ true
unfolding is_abs
absolute = refl

ns-PlainName : PlainName (codes "ns")
ns-PlainName = ((refl, omega arith), ((refl, omega arith), tt))

p-PlainName : PlainName (codes "p")
p-PlainName = ((refl, omega arith), tt)

parse_control_file_path-path_example :
    parse_control_file_path (codes "/h") (codes "/h/ns/p/controlfiles/a.ip")
    ≡ some (record { namespace = codes "ns"; pod = codes "p"; file = codes "a.ip" })
parse_control_file_path-path_example =
    parse_control_file_path-path (codes "/h") (codes "ns") (codes "p") (codes "a.ip") absolute
      ns-PlainName p-PlainName (omega arith)

abbrev pod : Pod
pod = record {
  namespace = codes "ns";
  name = codes "p";
  resource_version = [];
  annotations = [];
  node_name = codes "n";
  has_dns_config = false;
  termination_grace_period_seconds = none;
  init_containers = [];
  containers = codes "a" ∷ [];
  status = record {
    phase = running;
    conditions = [];
    message = [];
    reason = [];
    host_ip = [];
    pod_ip = [];
    pod_ips = [];
    init_container_statuses = [];
    container_statuses = [];
  };
}

abbrev control : PodControl
control = record {
  update_status = λ p. record p { resource_version = codes "2" };
  load_from_disk = λ namespace name. some pod;
}

abbrev created : Event
created = record {
  name = codes "/h/ns/p/controlfiles/a.exitCode";
  has_create = true;
  has_write = false;
}

process_event-exit_code_example :
    process_event created control (λ f. none) (codes "/h") 5
    ≡ some (record pod { resource_version = codes "2" })
unfolding is_final
process_event-exit_code_example =
    process_event-exit_code created control (λ f. none) (codes "/h") 5 (codes "ns") (codes "p")
      (codes "a") pod absolute ns-PlainName p-PlainName (omega arith) refl refl refl

notified :
    process_event created control (λ f. none) (codes "/h") 5
    ≡ some (record pod { resource_version = codes "2" })
unfolding process_event parse_control_file_path is_abs match_path trim_prefix push_namespace
    match_namespace_rest match_pod push_pod match_pod_rest match_file reaction beq ext
notified = refl
