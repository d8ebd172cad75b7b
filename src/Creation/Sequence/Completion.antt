-- ===== src/Creation/Sequence/Completion.antt =====
-- The pod that CreatePod of internal/compute/podhandler/podhandler.go leaves when it returns at its end.
use hpktainer.Base.{
  ℕ, Bool, true, false, Option, none, some, List, [], ◌∷◌, ◌++◌, Bytes, codes, ◌≡◌, refl, ◌∙◌,
  arith, lookup, lookup-insert, beq_refl,
}
use hpktainer.Pod.{Pod}
use hpktainer.Endpoint.{job_dir, log_dir, volume_dir, control_file_dir}
use hpktainer.JobId.{job_id_type_process}
use hpktainer.Expansion.Callers.{EnvVar}
use hpktainer.Creation.Building.{Handler}
use hpktainer.Creation.{
  PodSpec, Host, Creation, goes, save, fail, mount_volumes, build_containers, set_init_statuses,
  set_statuses, is_built, build_init, build_main, watched,
}
use hpktainer.Creation.Sequence.{
  annotate, set_annotations, set_pod_id, pod_directory, handler_of, make_directories, prepare,
  build, cgroups, submit, with_services, create_pod,
}
use hpktainer.Creation.Sequence.Statuses.{
  names_of, spec_names, build_containers-names, Ensures, ◌then_Ensures◌, goes-Ensures,
  check-Ensures, built-Ensures, save_pod-Ensures,
}
use hpktainer.Creation.Sequence.Checks.{head?}

abbrev Anything : Creation → Type 0
Anything c = Unit

abbrev pub InitNamed : PodSpec → Creation → Type 0
InitNamed spec c = names_of c.pod.status.init_container_statuses ≡ spec_names spec.init_containers

abbrev pub Named : PodSpec → Creation → Type 0
Named spec c =
    InitNamed spec c × (names_of c.pod.status.container_statuses ≡ spec_names spec.containers)

abbrev pub HasId : Creation → Type 0
HasId c = lookup (codes "pod.hpk/id") c.pod.annotations ≡ some (job_id_type_process ++ codes "0")

module _ (h : Host) (now : ℕ) where
  prepare-Ensures : (dir : Bytes) → Ensures Anything Anything (prepare h now dir)
  unfolding prepare make_directories
  prepare-Ensures dir =
      let directory = codes "PodDirectoryError" in
      check-Ensures h now directory (h.can_make_dir (job_dir dir))
      then_Ensures check-Ensures h now directory (h.can_make_dir (log_dir dir))
      then_Ensures check-Ensures h now directory (h.can_make_dir (volume_dir dir))
      then_Ensures check-Ensures h now directory (h.can_make_dir (control_file_dir dir))
      then_Ensures save_pod-Ensures h now h.saves_early (λ c x. x)
      then_Ensures check-Ensures h now (codes "WatcherError") (watched h.watch)

  mount_volumes-Ensures : (vs : List Bytes) → Ensures Anything Anything (mount_volumes h now vs)
  unfolding mount_volumes
  mount_volumes-Ensures [] = goes-Ensures (λ c. c) (λ c x. x)
  mount_volumes-Ensures (v ∷ vs) =
      check-Ensures h now (codes "VolumeError") (h.mounts_volume v)
      then_Ensures mount_volumes-Ensures vs

  build-Ensures :
      (spec : PodSpec) (handler : Handler)
      → Ensures Anything (Named spec) (build h now spec handler)
  unfolding build build_init build_main set_init_statuses set_statuses
  build-Ensures spec handler =
      let init = build_containers h.building handler spec.init_containers in
      let main = build_containers h.building handler spec.containers in
      mount_volumes-Ensures spec.volumes
      then_Ensures built-Ensures {Q = InitNamed spec} h now (codes "InitContainerError")
          (is_built init.1) (set_init_statuses init.0)
          (λ b c x. build_containers-names h.building handler spec.init_containers b)
      then_Ensures built-Ensures h now (codes "MainContainerError") (is_built main.1)
          (set_statuses main.0)
          (λ b c x. (x, build_containers-names h.building handler spec.containers b))

  module _ (spec : PodSpec) where
    cgroups-Ensures : (b : Bool) → Ensures (Named spec) (Named spec) (cgroups b h now)
    unfolding cgroups
    cgroups-Ensures true = check-Ensures h now (codes "CgroupError") h.creates_cgroup_file
    cgroups-Ensures false = goes-Ensures (λ c. c) (λ c x. x)

    submit-Ensures : (dir : Bytes) → Ensures (Named spec) (Named spec) (submit h now dir)
    unfolding submit set_annotations annotate
    submit-Ensures dir =
        check-Ensures h now (codes "ImagePullError") _
        then_Ensures check-Ensures h now (codes "TemplateError") h.parses_template
        then_Ensures goes-Ensures (set_annotations h.environment dir) (λ c x. x)
        then_Ensures check-Ensures h now (codes "TemplateError") h.evaluates_template
        then_Ensures check-Ensures h now (codes "ScriptWriteError") h.writes_script
        then_Ensures check-Ensures h now (codes "JobSubmissionError") h.submits

set_pod_id-HasId : (c : Creation) → HasId (set_pod_id (codes "0") c)
unfolding set_pod_id annotate
set_pod_id-HasId c =
    lookup-insert (codes "pod.hpk/id") (codes "pod.hpk/id") (job_id_type_process ++ codes "0")
      c.pod.annotations
    ∙ rw (beq_refl (codes "pod.hpk/id")) refl

-- The pod is complete: it has a status with its name for each container and init container, in order,
-- it has its id, and it is the last that was given to SavePodToFile.
pub record Complete (spec : PodSpec) (c : Creation) : Type 0 where
  pub named : Named spec c
  pub has_id : HasId c
  pub saved : head? c.saved ≡ some c.pod

with_services-Complete :
    (h : Host) (now : ℕ) (spec : PodSpec) (c d : Creation) (envs : Option (List EnvVar))
    → with_services h now spec c envs ≡ goes d
    → Complete spec d
unfolding with_services set_pod_id annotate save
with_services-Complete h now spec c d none e = unfold fail in absurd (ground arith)
with_services-Complete h now spec c d (some envs) e =
    Ensures.ensured
      (prepare-Ensures h now (pod_directory h c.pod)
        then_Ensures build-Ensures h now spec (handler_of h spec c.pod envs)
        then_Ensures cgroups-Ensures h now spec h.environment.enable_cgroup_v2
        then_Ensures submit-Ensures h now spec (pod_directory h c.pod)
        then_Ensures goes-Ensures {Q = λ m. Named spec m × HasId m} (set_pod_id (codes "0"))
            (λ m x. (x, set_pod_id-HasId m))
        then_Ensures save_pod-Ensures {Q = Complete spec} h now h.saves_last
            (λ m x. record { named = x.0; has_id = x.1; saved = refl }))
      c d tt e

-- If CreatePod returns at its end, the pod has a container status for each of its containers and an
-- init container status for each of its init containers, in their order and with their names, it
-- carries the annotation pod.hpk/id with a process id, and it is the last pod that was given to
-- SavePodToFile.
pub create_pod-Complete :
    (h : Host) (now : ℕ) (spec : PodSpec) (pod : Pod) (d : Creation)
    → create_pod h now spec pod ≡ goes d
    → Complete spec d
unfolding create_pod
create_pod-Complete h now spec pod d e =
    with_services-Complete h now spec (record { pod = pod; saved = [] }) d _ e
