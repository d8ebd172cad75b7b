-- ===== src/Creation/Sequence/Outcomes.antt =====
-- CreatePod of internal/compute/podhandler/podhandler.go against the list of its checks.
use hpktainer.Base.{
  ℕ, Bool, true, false, Option, none, some, List, [], ◌∷◌, Bytes, codes, ◌≡◌, refl, inl, inr,
}
use hpktainer.Pod.{Pod, Phase}
use hpktainer.Endpoint.{pod_path, job_dir, log_dir, volume_dir, control_file_dir, image_dir}
use hpktainer.Expansion.Callers.{EnvVar}
use hpktainer.Conditions.{pod_error}
use hpktainer.Services.{from_services_for_pod}
use hpktainer.Image.{pull, docker}
use hpktainer.Creation.Building.{Handler, Spec}
use hpktainer.Creation.{
  PodSpec, Host, Creation, save, fail_unsaved, fail, check, save_pod, watched, mount_volumes,
  build_containers, set_init_statuses, set_statuses, is_built, build_init, build_main, is_located,
}
use hpktainer.Creation.Sequence.{
  annotate, set_annotations, set_pod_id, pod_directory, handler_of, make_directories, prepare,
  build, cgroups, submit, with_services, create_pod,
}
use hpktainer.Creation.Sequence.Checks.{
  first_failure, volume_checks, cgroup_checks, checks_of, Follows, Meets, ◌then_Meets◌, goes-Meets,
  goes_first, goes_last,
}

module _ {phase : Phase} (h : Host) (now : ℕ) where
  check-Meets : (reason : Bytes) (b : Bool) → Meets phase ((b, reason) ∷ []) (check h now reason b)
  unfolding check fail save pod_error
  check-Meets reason true = record { follows = λ c e. e }
  check-Meets reason false = record { follows = λ c e. (refl, (refl, inr refl)) }

  save_pod-Meets : (b : Bool) → Meets phase ((b, codes "SavePodError") ∷ []) (save_pod h now b)
  unfolding save_pod fail_unsaved save pod_error
  save_pod-Meets true = record { follows = λ c e. e }
  save_pod-Meets false = record { follows = λ c e. (refl, (refl, inl refl)) }

  mount_volumes-Meets :
      (vs : List Bytes) → Meets phase (volume_checks h vs) (mount_volumes h now vs)
  unfolding mount_volumes volume_checks
  mount_volumes-Meets [] = goes-Meets (λ c. c) (λ c. refl)
  mount_volumes-Meets (v ∷ vs) =
      check-Meets (codes "VolumeError") (h.mounts_volume v) then_Meets mount_volumes-Meets vs

  prepare-Meets :
      (dir : Bytes)
      → Meets phase
          ((h.can_make_dir (job_dir dir), codes "PodDirectoryError")
            ∷ (h.can_make_dir (log_dir dir), codes "PodDirectoryError")
            ∷ (h.can_make_dir (volume_dir dir), codes "PodDirectoryError")
            ∷ (h.can_make_dir (control_file_dir dir), codes "PodDirectoryError")
            ∷ (h.saves_early, codes "SavePodError")
            ∷ (watched h.watch, codes "WatcherError")
            ∷ [])
          (prepare h now dir)
  unfolding prepare make_directories
  prepare-Meets dir =
      let directory = codes "PodDirectoryError" in
      check-Meets directory (h.can_make_dir (job_dir dir))
      then_Meets check-Meets directory (h.can_make_dir (log_dir dir))
      then_Meets check-Meets directory (h.can_make_dir (volume_dir dir))
      then_Meets check-Meets directory (h.can_make_dir (control_file_dir dir))
      then_Meets save_pod-Meets h.saves_early
      then_Meets check-Meets (codes "WatcherError") (watched h.watch)

  build_init-Meets :
      (handler : Handler) (specs : List Spec)
      → Meets phase
          ((is_built (build_containers h.building handler specs).1, codes "InitContainerError")
            ∷ [])
          (build_init h now handler specs)
  unfolding build_init set_init_statuses
  build_init-Meets handler specs =
      goes_first (set_init_statuses (build_containers h.building handler specs).0) (λ c. refl)
        (check-Meets (codes "InitContainerError")
          (is_built (build_containers h.building handler specs).1))

  build_main-Meets :
      (handler : Handler) (specs : List Spec)
      → Meets phase
          ((is_built (build_containers h.building handler specs).1, codes "MainContainerError")
            ∷ [])
          (build_main h now handler specs)
  unfolding build_main set_statuses
  build_main-Meets handler specs =
      goes_first (set_statuses (build_containers h.building handler specs).0) (λ c. refl)
        (check-Meets (codes "MainContainerError")
          (is_built (build_containers h.building handler specs).1))

  cgroups-Meets : (b : Bool) → Meets phase (cgroup_checks b h) (cgroups b h now)
  unfolding cgroups cgroup_checks
  cgroups-Meets true = check-Meets (codes "CgroupError") h.creates_cgroup_file
  cgroups-Meets false = goes-Meets (λ c. c) (λ c. refl)

  submit-Meets :
      (dir : Bytes)
      → Meets phase
          ((
            is_located (
                (pull h.pause_images
                  (image_dir h.environment.hpk)
                  docker
                  h.environment.pause_image).1),
            codes "ImagePullError",
          )
            ∷ (h.parses_template, codes "TemplateError")
            ∷ (h.evaluates_template, codes "TemplateError")
            ∷ (h.writes_script, codes "ScriptWriteError")
            ∷ (h.submits, codes "JobSubmissionError")
            ∷ [])
          (submit h now dir)
  unfolding submit set_annotations annotate
  submit-Meets dir =
      goes_last (set_annotations h.environment dir) (λ c. refl)
        (check-Meets (codes "ImagePullError") _
          then_Meets check-Meets (codes "TemplateError") h.parses_template)
      then_Meets check-Meets (codes "TemplateError") h.evaluates_template
      then_Meets check-Meets (codes "ScriptWriteError") h.writes_script
      then_Meets check-Meets (codes "JobSubmissionError") h.submits

  with_services-Meets :
      (spec : PodSpec) (envs : List EnvVar) (c : Creation)
      → c.pod.status.phase ≡ phase
      → Follows phase
          (first_failure (checks_of h spec (pod_directory h c.pod) (handler_of h spec c.pod envs)))
          (with_services h now spec c (some envs))
  unfolding with_services build checks_of set_pod_id annotate
  with_services-Meets spec envs c e =
      let handler = handler_of h spec c.pod envs in
      let dir = pod_directory h c.pod in
      Meets.follows
        (goes_last (set_pod_id (codes "0")) (λ d. refl)
            (prepare-Meets dir
              then_Meets (mount_volumes-Meets spec.volumes
                  then_Meets build_init-Meets handler spec.init_containers
                  then_Meets build_main-Meets handler spec.containers)
              then_Meets cgroups-Meets h.environment.enable_cgroup_v2
              then_Meets submit-Meets dir)
          then_Meets save_pod-Meets h.saves_last)
        c e

-- The handler that CreatePod works with, if the services could be listed.
abbrev pub handler_for : Host → PodSpec → Pod → List EnvVar → Handler
handler_for h spec pod envs = record {
  namespace = pod.namespace;
  pod_name = pod.name;
  security_context = spec.security_context;
  hpk = h.environment.hpk;
  pod_directory = pod_path h.environment.hpk pod.namespace pod.name;
  pod_env_variables = envs;
}

with_services-none :
    (h : Host) (now : ℕ) (spec : PodSpec) (c : Creation)
    → Follows c.pod.status.phase (some (codes "EnvVarError")) (with_services h now spec c none)
unfolding with_services fail save pod_error
with_services-none h now spec c = (refl, (refl, inr refl))

abbrev pub services_of : Host → PodSpec → Pod → Option (List EnvVar)
services_of h spec pod =
    from_services_for_pod
      (record { host = h.environment.kube_master_host; port = h.environment.kube_master_port })
      pod.namespace spec.enable_service_links h.services

-- The reason for which the creation of a pod fails, if it does.
pub failure_of : Host → PodSpec → Pod → Option (List EnvVar) → Option Bytes
failure_of h spec pod none = some (codes "EnvVarError")
failure_of h spec pod (some envs) = first_failure (
    checks_of h spec (pod_path h.environment.hpk pod.namespace pod.name)
      (handler_for h spec pod envs))

followed :
    (h : Host) (now : ℕ) (spec : PodSpec) (pod : Pod) (envs : Option (List EnvVar))
    → Follows pod.status.phase
        (failure_of h spec pod envs)
        (with_services h now spec (record { pod = pod; saved = [] }) envs)
unfolding failure_of pod_directory handler_of
followed h now spec pod none = with_services-none h now spec (record { pod = pod; saved = [] })
followed h now spec pod (some envs) =
    with_services-Meets h now spec envs (record { pod = pod; saved = [] }) refl

-- CreatePod follows its list of checks, for every pod and whatever the system answers: if none of them
-- fails it returns at its end with the phase of the pod unchanged; otherwise it stops at the first one
-- that fails, with the pod failed for the reason of that check, and the failed pod is the last that was
-- given to SavePodToFile, unless it is that call which failed.
pub create_pod-Follows :
    (h : Host) (now : ℕ) (spec : PodSpec) (pod : Pod)
    → Follows pod.status.phase
        (failure_of h spec pod (services_of h spec pod))
        (create_pod h now spec pod)
unfolding create_pod
create_pod-Follows h now spec pod = followed h now spec pod (services_of h spec pod)
