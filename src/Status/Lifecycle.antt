-- ===== src/Status/Lifecycle.antt =====
-- The phase that UpdateStatusFromRuntime of internal/compute/podhandler/podStatus.go decides on.
use hpktainer.Classifier.{Classifier, classify_all, reset}
use hpktainer.Endpoint.{pod_path}
use hpktainer.Base.{
  ℕ, suc, ◌+◌, ◌≡◌, ◌≢◌, ◌⊎◌, refl, ap, sym, ◌∙◌, List, [], ◌∷◌, Bytes, ltb, if◌then◌else◌, arith,
  All, length, map,
}
use hpktainer.Pod.{Phase, pending, running, succeeded, failed, Pod, ContainerStatus}
use hpktainer.Containers.{Disk, sync_container_statuses}
use hpktainer.Containers.States.{name-handle_status}
use hpktainer.Status.{
  Checked, proceed, transition, run_transitions, phase_transition_sequence, check_phase, check_init,
  init_loop, finish, and_then, update_status_from_runtime, load_ip, is_initializing, initialized,
}
use hpktainer.Classifier.Classes.{
  JobClass, is_pending, is_running, is_successful, is_failed, count_class, count_class_total,
  DistinctNames, length-classify_all,
}
use hpktainer.Status.Loading.{loaded, handled, phase_loaded, containers_loaded, statuses_loaded}

-- A pod in a final phase is left exactly as it is, whatever the files say.
pub update-terminal :
    (disk : Disk) (hpk : Bytes) (now : ℕ) (message : Bytes) (pod : Pod)
    → (pod.status.phase ≡ succeeded) ⊎ (pod.status.phase ≡ failed)
    → update_status_from_runtime disk hpk now message pod ≡ pod
unfolding update_status_from_runtime check_phase
update-terminal disk hpk now message pod h = ground arith

-- The phase that the container statuses stand for: failed if a container failed, else pending if one
-- has not started, else running if one runs, else succeeded.
pub decide : List ContainerStatus → Phase
decide ss =
    if ltb 0 (count_class is_failed ss)
    then failed
    else if ltb 0 (count_class is_pending ss)
    then pending
    else if ltb 0 (count_class is_running ss)
    then running
    else succeeded

transition_phase :
    (now : ℕ) (message : Bytes) (pod : Pod) (c : Classifier)
    → length c.pending_jobs
        + length c.running_jobs
        + length c.successful_jobs
        + length c.failed_jobs
      ≡ length pod.containers
    → (run_transitions now message
        (phase_transition_sequence now (length pod.containers) c)
        pod).status.phase
      ≡ (if ltb 0 (length c.failed_jobs)
          then failed
          else if ltb 0 (length c.pending_jobs)
          then pending
          else if ltb 0 (length c.running_jobs)
          then running
          else succeeded)
unfolding run_transitions phase_transition_sequence
transition_phase now message pod c h = ground arith

-- If the pod has one status for each container and the names are distinct, the phase is the one that
-- the statuses stand for; so the branch for an invalid transition is never taken.
pub transition-decide :
    (now : ℕ) (message : Bytes) (pod : Pod)
    → DistinctNames pod.status.container_statuses
    → length pod.status.container_statuses ≡ length pod.containers
    → (transition now message pod).status.phase ≡ decide pod.status.container_statuses
unfolding transition decide
transition-decide now message pod d l =
    let ss = pod.status.container_statuses in
    let counts = λ (k : JobClass). length-classify_all k ss d in
    let phase = transition_phase now message pod (classify_all reset ss) (
      omega (
        arith,
        counts is_pending,
        counts is_running,
        counts is_successful,
        counts is_failed,
        count_class_total ss,
        l,
      )) in
    rw phase (rw (counts is_failed) (rw (counts is_pending) (rw (counts is_running) refl)))

-- Keeping the names keeps them distinct.
module _ (f : ContainerStatus → ContainerStatus)
    (keeps : (s : ContainerStatus) → (f s).name ≡ s.name) where
  differs-map :
      (s : ContainerStatus) (ss : List ContainerStatus)
      → All (λ t. s.name ≢ t.name) ss
      → All (λ t. (f s).name ≢ t.name) (map f ss)
  differs-map s [] h = tt
  differs-map s (t ∷ ss) h = ((λ e. h.0 (sym (keeps s) ∙ e ∙ keeps t)), differs-map s ss h.1)

  DistinctNames-map : (ss : List ContainerStatus) → DistinctNames ss → DistinctNames (map f ss)
  DistinctNames-map [] h = tt
  DistinctNames-map (s ∷ ss) h = (differs-map s ss h.0, DistinctNames-map ss h.1)

  length-map_statuses : (ss : List ContainerStatus) → length (map f ss) ≡ length ss
  length-map_statuses [] = refl
  length-map_statuses (s ∷ ss) = ap suc (length-map_statuses ss)

module _ (disk : Disk) (hpk : Bytes) (now : ℕ) (message : Bytes) (pod : Pod) where
  check_phase_running :
      pod.status.phase ≡ running → check_phase now pod.status.phase pod ≡ proceed pod
  unfolding check_phase
  check_phase_running h = ap (λ (x : Phase). check_phase now x pod) h

  check_init_running : (p : Pod) → p.status.phase ≡ running → check_init now p ≡ proceed p
  unfolding check_init is_initializing
  check_init_running p h =
      ap
        (λ (x : Phase).
          if is_initializing x
          then and_then (init_loop now p.status.init_container_statuses p)
              (λ q. proceed (initialized now q))
          else proceed p)
        h

  update_running :
      pod.status.phase ≡ running
      → update_status_from_runtime disk hpk now message pod
        ≡ transition now message (loaded disk hpk now pod)
  unfolding update_status_from_runtime finish and_then loaded
  update_running h =
      ap
        (λ (x : Checked).
          finish
            (and_then x
              (λ p. check_init now (sync_container_statuses disk hpk now (load_ip disk hpk p))))
            (transition now message))
        (check_phase_running h)
      ∙ ap (λ (x : Checked). finish x (transition now message))
          (check_init_running (loaded disk hpk now pod) (phase_loaded disk hpk now pod ∙ h))

  -- The pod that the virtual kubelet holds is running, its statuses are one for each container and
  -- have distinct names: the update then sets the phase that the refreshed statuses stand for.
  pub update-decide :
      pod.status.phase ≡ running
      → DistinctNames pod.status.container_statuses
      → length pod.status.container_statuses ≡ length pod.containers
      → (update_status_from_runtime disk hpk now message pod).status.phase
        ≡ decide (map (handled disk hpk now pod) pod.status.container_statuses)
  update-decide r d l =
      let keeps = name-handle_status disk (pod_path hpk pod.namespace pod.name) now in
      rw (update_running r) (
        transition-decide now message (loaded disk hpk now pod)
          (rw (statuses_loaded disk hpk now pod)
            (DistinctNames-map (handled disk hpk now pod) keeps pod.status.container_statuses d))
          (ap (λ (x : List ContainerStatus). length x) (statuses_loaded disk hpk now pod)
            ∙ length-map_statuses (handled disk hpk now pod) keeps pod.status.container_statuses
            ∙ l
            ∙ ap (λ (x : List Bytes). length x) (sym (containers_loaded disk hpk now pod)))
        ∙ ap decide (statuses_loaded disk hpk now pod))
