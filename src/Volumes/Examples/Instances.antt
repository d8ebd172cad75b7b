-- ===== src/Volumes/Examples/Instances.antt =====
-- Instances for the volumes of a pod.
use hpktainer.Base.{
  List, ℕ, pos, ◌<◌, true, false, none, some, [], ◌∷◌, codes, ◌≡◌, refl, arith, ap, if◌then◌else◌,
  ◌==◌, beq, lookup, insert, join_path,
}
use hpktainer.Pod.{Pod, pending}
use hpktainer.Endpoint.{volume_dir}
use hpktainer.Volumes.{not_found, Result, ok, err, symlink, write_payload, performed}
use hpktainer.Volumes.Claims.{
  claim_bound, Claim, PersistentVolume, Cluster, link_volume, persistent_volume_claim_source,
  check_persistent_volume_claim_mode_block, check_claim, is_claim_retried,
}
use hpktainer.Volumes.Claims.Bound.{
  Usable, Transient, absent, Linked, persistent_volume_claim_source-Linked,
  persistent_volume_claim_source-waits,
}
use hpktainer.Volumes.Payload.{
  ConfigMap, Writer, ObjectSource, set_up_config_map, config_map_content, config_map_payload,
}
use hpktainer.Volumes.Payload.Made.{config_map_file}
use hpktainer.Volumes.Payload.Served.{Served, set_up_config_map-Served}
use hpktainer.Volumes.Projections.{
  Source, config_map_source, secret_source, token_source, Answers, Collected,
  collect_projected-Collected,
}
use hpktainer.Volumes.Mounting.{Volume, Node, mount_volume_source}
use hpktainer.Volumes.Mounting.Provision.{Provided, mount_volume_source-Provided}
use hpktainer.Volumes.HostPath.{lstat_absent, mount_host_path}
use hpktainer.Volumes.Examples.{on_error, on_error-Retries}

abbrev pod : Pod
pod = record {
  namespace = codes "ns";
  name = codes "web";
  resource_version = [];
  annotations = [];
  node_name = [];
  has_dns_config = false;
  termination_grace_period_seconds = none;
  init_containers = [];
  containers = codes "app" ∷ [];
  status = record {
    phase = pending;
    conditions = [];
    message = [];
    reason = [];
    host_ip = [];
    pod_ip = [];
    pod_ips = [];
    init_container_statuses = [];
    container_statuses = [];
  };
}

abbrev claim : Claim
claim = record { volume_mode = none; phase = claim_bound; volume_name = codes "pv" }

abbrev volume : PersistentVolume
volume = record { host_path = none; local = some (codes "/data") }

-- The claim is there at the second attempt.
abbrev cluster : Cluster
cluster = record {
  get_claim = λ n. if n == 0 then err not_found else ok claim;
  get_volume = λ name n. ok volume;
  made = λ path. performed;
  linked = λ path target. performed;
  message = λ reason. reason;
}

links :
    persistent_volume_claim_source cluster (on_error 9) (on_error 9) 5 pod (codes "/v")
    ≡ ((symlink (codes "/data") (codes "/v") ∷ [], none), pod)
unfolding persistent_volume_claim_source on_error check_claim is_claim_retried
    check_persistent_volume_claim_mode_block
links = refl

persistent_volume_claim_source-Linked_example :
    Linked cluster
      (codes "/v")
      (persistent_volume_claim_source cluster (on_error 9) (on_error 9) 5 pod (codes "/v")).0.0
    × ((persistent_volume_claim_source cluster (on_error 9) (on_error 9) 5 pod (codes "/v")).1
        ≡ pod)
persistent_volume_claim_source-Linked_example =
    persistent_volume_claim_source-Linked cluster (on_error 9) (on_error 9) 5 pod (codes "/v")
      (on_error-Retries 9) (on_error-Retries 9) (ap (λ r. r.0.1) links)

usable : Usable claim
usable = record { is_bound = refl; not_block = λ e. absurd (ground arith) }

transient : (n : ℕ) → n < 1 → Transient (cluster.get_claim n)
transient n h = let zeroth : n ≡ 0 = omega arith in rw zeroth absent

persistent_volume_claim_source-waits_example :
    persistent_volume_claim_source cluster (on_error 9) (on_error 9) 5 pod (codes "/v")
    ≡ (link_volume cluster (codes "/v") none (some (codes "/data")), pod)
persistent_volume_claim_source-waits_example =
    persistent_volume_claim_source-waits cluster (on_error 9) (on_error 9) 5 pod (codes "/v")
      (on_error-Retries 9) (on_error-Retries 9) 1 0 claim volume (omega arith) transient refl usable
      (omega arith) (λ n h. absurd (omega arith)) refl

abbrev config_map : ConfigMap
config_map = record { text_data = (codes "a", codes "x") ∷ []; binary_data = [] }

abbrev source : ObjectSource
source = record {
  items = record { key = codes "a"; path = codes "f"; mode = none } ∷ [];
  default_mode = some (pos 420);
  optional = none;
}

abbrev writer : Writer
writer = record { makes_nested_mountpoints = true; makes_writer = true; writes = true }

abbrev get_config_map : ℕ → Result ConfigMap
get_config_map n = if n == 2 then ok config_map else err not_found

sets_up :
    set_up_config_map writer source (on_error 3) get_config_map (codes "/v")
    ≡ (write_payload (codes "/v") ((codes "f", (codes "x", pos 420)) ∷ []) ∷ [], none)
unfolding set_up_config_map on_error config_map_payload lookup insert beq
sets_up = refl

set_up_config_map-Served_example :
    Served source
      (record { text_data = []; binary_data = [] })
      get_config_map
      config_map_content
      (config_map_file source.items)
      (codes "/v")
      (set_up_config_map writer source (on_error 3) get_config_map (codes "/v")).0
set_up_config_map-Served_example =
    set_up_config_map-Served writer source (on_error 3) get_config_map (codes "/v")
      (on_error-Retries 3) (ap (λ r. r.1) sets_up)

abbrev projections : Answers
projections = record {
  get_secret = λ i n. err not_found;
  get_config_map = λ i n. get_config_map n;
  retry_secret = on_error 3;
  retry_config_map = on_error 3;
  extract_field = λ path. none;
  create_token = λ i. some (codes "t");
}

abbrev sources : List Source
sources = config_map_source source ∷ secret_source source ∷ token_source (codes "f") ∷ []

collect_projected-Collected_example : Collected projections (pos 420) sources
collect_projected-Collected_example = collect_projected-Collected projections (pos 420) sources

abbrev node : Node
node = record {
  files = record {
    path_exists = λ path. some true;
    file_type = λ path. none;
    lstat = λ path. lstat_absent;
    has_no_back_steps = λ path. true;
    makes_dir = λ path. performed;
    makes_file = λ path. performed;
    links = λ path target. performed;
  };
  file_system = record { makes_dir = λ path. performed; writes_file = λ path. performed };
  cluster = cluster;
  writer = writer;
  get_config_map = get_config_map;
  get_secret = λ n. err not_found;
  retry_config_map = on_error 3;
  retry_secret = on_error 3;
  retry_claim = on_error 9;
  retry_volume = on_error 9;
  extract_field = λ path. none;
  sets_up_projected = λ dir. ([], none);
}

abbrev data_volume : Volume
data_volume = record {
  name = codes "data";
  source = record {
    empty_dir = false;
    config_map = none;
    secret = none;
    downward_api = none;
    host_path = some (codes "/srv", none);
    persistent_volume_claim = false;
    projected = false;
  };
}

mounts : (mount_volume_source node 5 pod (codes "/p") data_volume).0.1 ≡ none
unfolding mount_volume_source mount_host_path
mounts = refl

mount_volume_source-Provided_example :
    Provided node
      (join_path (volume_dir (codes "/p") ∷ codes "data" ∷ []))
      (mount_volume_source node 5 pod (codes "/p") data_volume).0.0
mount_volume_source-Provided_example =
    mount_volume_source-Provided node 5 pod (codes "/p") data_volume (λ e. absurd (ground arith))
      mounts
