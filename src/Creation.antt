-- ===== src/Creation.antt =====
-- The steps of CreatePod in internal/compute/podhandler/podhandler.go. What the system answers is a record; the
-- mounting of volumes and the evaluation of the script template are answers too. A message of an error
-- is given by its reason.
pub mod Building
pub mod Sequence
pub mod Saving
use hpktainer.Base.{ℕ, Bool, true, false, Option, none, some, List, [], ◌∷◌, Bytes, codes}
use hpktainer.Pod.{Pod, ContainerStatus, ContainerState}
use hpktainer.Conditions.{pod_error}
use hpktainer.Security.{PodSecurityContext}
use hpktainer.Services.{Service}
use hpktainer.Image as Image
use hpktainer.Image.{Located, located}
use hpktainer.Creation.Building as Building
use hpktainer.Creation.Building.{Spec, Handler, Built, ok, err, Template, build_container}

-- compute.HostEnvironment, and compute.HPK.
pub record Environment : Type 0 where
  pub kube_master_host : Bytes
  pub kube_master_port : Bytes
  pub container_registry : Bytes
  pub apptainer_bin : Bytes
  pub enable_cgroup_v2 : Bool
  pub working_directory : Bytes
  pub kube_dns : Bytes
  pub pause_image : Bytes
  pub hpk : Bytes

-- The parts of the specification that the creation reads besides the pod.
pub record PodSpec : Type 0 where
  pub enable_service_links : Option Bool
  pub security_context : Option PodSecurityContext
  pub volumes : List Bytes
  pub init_containers : List Spec
  pub containers : List Spec

pub data Watch : Type 0 where
  added exists refused : Watch

pub record Host : Type 0 where
  pub environment : Environment
  pub services : Option (List Service)
  pub can_make_dir : Bytes → Bool
  pub saves_early : Bool
  pub saves_last : Bool
  pub watch : Watch
  pub mounts_volume : Bytes → Bool
  pub building : Building.Host
  pub creates_cgroup_file : Bool
  pub pause_images : Image.Surroundings
  pub parses_template : Bool
  pub evaluates_template : Bool
  pub writes_script : Bool
  pub submits : Bool
  pub message : Bytes → Bytes

-- The pod, and the pods that were given to SavePodToFile, the last one first.
pub record Creation : Type 0 where
  pub pod : Pod
  pub saved : List Pod

-- After a step the creation goes on, or CreatePod has returned.
pub data Flow : Type 0 where
  goes stops : Creation → Flow

pub save : Creation → Creation
save c = record c { saved = c.pod ∷ c.saved }

-- compute.PodError and, but for the failures of SavePodToFile, `_ = SavePodToFile(ctx, h.Pod)`.
fail_unsaved : Host → ℕ → Bytes → Creation → Flow
fail_unsaved h now reason c =
    stops (record c { pod = pod_error now c.pod reason (h.message reason) })

fail : Host → ℕ → Bytes → Creation → Flow
unfolding save
fail h now reason c =
    stops (save (record c { pod = pod_error now c.pod reason (h.message reason) }))

infixl 5 ◌and_then◌
abbrev pub ◌and_then◌ : Flow → (Creation → Flow) → Flow
(goes c) and_then f = f c
(stops c) and_then f = stops c

-- A step that only succeeds or fails.
pub check : Host → ℕ → Bytes → Bool → Creation → Flow
unfolding fail
check h now reason true c = goes c
check h now reason false c = fail h now reason c

pub save_pod : Host → ℕ → Bool → Creation → Flow
unfolding fail_unsaved save
save_pod h now true c = goes (save c)
save_pod h now false c = fail_unsaved h now (codes "SavePodError") (save c)

pub watched : Watch → Bool
watched refused = false
watched _ = true

mount_volumes : Host → ℕ → List Bytes → Creation → Flow
unfolding check
mount_volumes h now [] c = goes c
mount_volumes h now (v ∷ vs) c =
    check h now (codes "VolumeError") (h.mounts_volume v) c and_then mount_volumes h now vs

abbrev pub zero_state : ContainerState
zero_state = record { waiting = none; running = none; terminated = none }

-- corev1.ContainerStatus{}.
abbrev pub zero_status : ContainerStatus
zero_status = record {
  name = [];
  state = zero_state;
  last_termination_state = zero_state;
  ready = false;
  restart_count = 0;
  container_id = [];
  started = none;
}

zero_statuses : List Spec → List ContainerStatus
zero_statuses [] = []
zero_statuses (s ∷ ss) = zero_status ∷ zero_statuses ss

prepend : Template → Option (List Template) → Option (List Template)
prepend t none = none
prepend t (some ts) = some (t ∷ ts)

-- After buildContainer for one container: its status stays empty if it cannot be built, as do those
-- of the later ones, which are then not tried.
built_first :
    List Spec
    → Built (Template × ContainerStatus)
    → List ContainerStatus × Option (List Template)
    → List ContainerStatus × Option (List Template)
unfolding zero_statuses prepend
built_first ss (err e) later = (zero_status ∷ zero_statuses ss, none)
built_first ss (ok (template, status)) (statuses, templates) =
    (status ∷ statuses, prepend template templates)

-- The statuses that the loop over the containers leaves, and the templates unless one cannot be built.
pub build_containers :
    Building.Host → Handler → List Spec → List ContainerStatus × Option (List Template)
unfolding built_first
build_containers host h [] = ([], some [])
build_containers host h (s ∷ ss) =
    built_first ss (build_container host h s zero_status) (build_containers host h ss)

set_init_statuses : List ContainerStatus → Creation → Creation
set_init_statuses ss c = record c {
  pod = record (c.pod) { status = record (c.pod.status) { init_container_statuses = ss } };
}

set_statuses : List ContainerStatus → Creation → Creation
set_statuses ss c = record c {
  pod = record (c.pod) { status = record (c.pod.status) { container_statuses = ss } };
}

pub is_built : Option (List Template) → Bool
is_built none = false
is_built (some ts) = true

build_init : Host → ℕ → Handler → List Spec → Creation → Flow
unfolding set_init_statuses check is_built
build_init h now handler specs c =
    let (statuses, templates) = build_containers h.building handler specs in
    check h now (codes "InitContainerError") (is_built templates) (set_init_statuses statuses c)

build_main : Host → ℕ → Handler → List Spec → Creation → Flow
unfolding set_statuses check is_built
build_main h now handler specs c =
    let (statuses, templates) = build_containers h.building handler specs in
    check h now (codes "MainContainerError") (is_built templates) (set_statuses statuses c)

pub is_located : Located → Bool
is_located (located path) = true
is_located _ = false
