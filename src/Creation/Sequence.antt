-- ===== src/Creation/Sequence.antt =====
-- CreatePod of internal/compute/podhandler/podhandler.go: its steps in order, with the annotations.
pub mod Checks
pub mod Outcomes
pub mod Statuses
pub mod Completion
pub mod Examples
use hpktainer.Base.{ℕ, Bool, true, false, Option, none, some, List, [], ◌++◌, Bytes, codes, insert}
use hpktainer.Pod.{Pod}
use hpktainer.Endpoint.{
  pod_path, job_dir, log_dir, volume_dir, control_file_dir, image_dir, cgroup_file_path,
  ip_address_path, stdout_path, stderr_path, sys_error_file_path,
}
use hpktainer.JobId.{job_id_type_process}
use hpktainer.Expansion.Callers.{EnvVar}
use hpktainer.Services.{from_services_for_pod}
use hpktainer.Image.{pull, docker}
use hpktainer.Creation.Building.{Handler}
use hpktainer.Creation.{
  Environment, PodSpec, Host, Creation, Flow, goes, fail, ◌and_then◌, check, save_pod, watched,
  mount_volumes, build_init, build_main, is_located,
}

annotate : Bytes → Bytes → Creation → Creation
annotate key value c = record c {
  pod = record (c.pod) { annotations = insert key value c.pod.annotations };
}

bool_text : Bool → Bytes
bool_text true = codes "true"
bool_text false = codes "false"

-- The annotations from the host environment and from the virtual environment.
set_annotations : Environment → Bytes → Creation → Creation
unfolding annotate bool_text
set_annotations e dir c = annotate (codes "PauseImage") e.pause_image (
    annotate (codes "sysErrorFilePath") (sys_error_file_path dir) (
      annotate (codes "stderrPath") (stderr_path dir) (
        annotate (codes "stdoutPath") (stdout_path dir) (
          annotate (codes "ipAddressPath") (ip_address_path dir) (
            annotate (codes "cgroupFilePath") (cgroup_file_path dir) (
              annotate (codes "kubeDNS") e.kube_dns (
                annotate (codes "workingDirectory") e.working_directory (
                  annotate (codes "enableCgroupV2") (bool_text e.enable_cgroup_v2) (
                    annotate (codes "apptainerBin") e.apptainer_bin (
                      annotate (codes "containerRegistry") e.container_registry
                        (annotate (codes "kubeMasterHost") e.kube_master_host c)))))))))))

-- SetPodID.
set_pod_id : Bytes → Creation → Creation
unfolding annotate
set_pod_id value c = annotate (codes "pod.hpk/id") (job_id_type_process ++ value) c

pod_directory : Host → Pod → Bytes
pod_directory h pod = pod_path h.environment.hpk pod.namespace pod.name

handler_of : Host → PodSpec → Pod → List EnvVar → Handler
unfolding pod_directory
handler_of h spec pod envs = record {
  namespace = pod.namespace;
  pod_name = pod.name;
  security_context = spec.security_context;
  hpk = h.environment.hpk;
  pod_directory = pod_directory h pod;
  pod_env_variables = envs;
}

-- The four directories.
make_directories : Host → ℕ → Bytes → Creation → Flow
make_directories h now dir c =
    check h now (codes "PodDirectoryError") (h.can_make_dir (job_dir dir)) c
    and_then check h now (codes "PodDirectoryError") (h.can_make_dir (log_dir dir))
    and_then check h now (codes "PodDirectoryError") (h.can_make_dir (volume_dir dir))
    and_then check h now (codes "PodDirectoryError") (h.can_make_dir (control_file_dir dir))

prepare : Host → ℕ → Bytes → Creation → Flow
unfolding make_directories
prepare h now dir c =
    make_directories h now dir c
    and_then save_pod h now h.saves_early
    and_then check h now (codes "WatcherError") (watched h.watch)

build : Host → ℕ → PodSpec → Handler → Creation → Flow
build h now spec handler c =
    mount_volumes h now spec.volumes c
    and_then build_init h now handler spec.init_containers
    and_then build_main h now handler spec.containers

-- `if compute.Environment.EnableCgroupV2`.
cgroups : Bool → Host → ℕ → Creation → Flow
cgroups true h now c = check h now (codes "CgroupError") h.creates_cgroup_file c
cgroups false h now c = goes c

-- From the image of the pause container to the submission of the job.
submit : Host → ℕ → Bytes → Creation → Flow
unfolding set_annotations
submit h now dir c =
    check h now (codes "ImagePullError")
      (is_located
        ((pull h.pause_images (image_dir h.environment.hpk) docker h.environment.pause_image).1))
      c
    and_then check h now (codes "TemplateError") h.parses_template
    and_then (λ d. goes (set_annotations h.environment dir d))
    and_then check h now (codes "TemplateError") h.evaluates_template
    and_then check h now (codes "ScriptWriteError") h.writes_script
    and_then check h now (codes "JobSubmissionError") h.submits

with_services : Host → ℕ → PodSpec → Creation → Option (List EnvVar) → Flow
unfolding handler_of prepare build cgroups submit set_pod_id pod_directory
with_services h now spec c none = fail h now (codes "EnvVarError") c
with_services h now spec c (some envs) =
    prepare h now (pod_directory h c.pod) c
    and_then build h now spec (handler_of h spec c.pod envs)
    and_then cgroups h.environment.enable_cgroup_v2 h now
    and_then submit h now (pod_directory h c.pod)
    and_then (λ d. goes (set_pod_id (codes "0") d))
    and_then save_pod h now h.saves_last

-- CreatePod: the pod as it is left, and the pods that were given to SavePodToFile. `goes` is the return
-- at the end.
pub create_pod : Host → ℕ → PodSpec → Pod → Flow
unfolding with_services
create_pod h now spec pod =
    with_services h now spec (record { pod = pod; saved = [] })
      (from_services_for_pod
        (record { host = h.environment.kube_master_host; port = h.environment.kube_master_port })
        pod.namespace spec.enable_service_links h.services)
