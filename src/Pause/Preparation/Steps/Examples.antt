-- ===== src/Pause/Preparation/Steps/Examples.antt =====
-- Instances for the preparation of the containers in cmd/hpk-pause/main.go.
use hpktainer.Base.{true, none, some, [], ◌∷◌, codes, ◌≡◌, refl, lookup, beq}
use hpktainer.Pause.Preparation.{Host, DnsPod, dns_none, Variables, prepare_dns, announce_ip}
use hpktainer.Pause.Preparation.Steps.Environment.{Prepared, prepare_containers-Prepared}
use hpktainer.Pause.Preparation.Steps.{
  prepare_containers, prepare_apptainer_runtime_dirs, after_announce,
}

abbrev preparing_host : Host
preparing_host = record {
  read_file = λ p. none;
  loopback = λ s. none;
  can_make_dir = λ p. true;
  can_write = λ p. true;
  hostname = some (codes "web");
  addresses = some [];
}

abbrev dns_pod : DnsPod
dns_pod = record {
  namespace = codes "ns";
  name = codes "web";
  k8s_app = none;
  dns_policy = dns_none;
  dns_config = none;
}

abbrev env : Variables
env = (codes "KUBEDNS_IP", codes "10.0.0.10") ∷ (codes "APPTAINER_BIND", codes "/a") ∷ []

prepares : (prepare_containers preparing_host env dns_pod (codes "/p") (some [])).0.1 ≡ none
unfolding prepare_containers prepare_dns announce_ip after_announce prepare_apptainer_runtime_dirs
    lookup beq
prepares = refl

prepare_containers-Prepared_example :
    Prepared env (prepare_containers preparing_host env dns_pod (codes "/p") (some [])).1
prepare_containers-Prepared_example =
    prepare_containers-Prepared preparing_host env dns_pod (codes "/p") (some []) prepares
