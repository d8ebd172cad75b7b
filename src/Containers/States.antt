-- ===== src/Containers/States.antt =====
-- Container states under SyncContainerStatuses (internal/compute/podhandler/container.go).
use hpktainer.Base.{
  ◌||◌, if◌then◌else◌, ℕ, ◌≡◌, ◌+◌, refl, true, Option, none, some, Bytes, ℤ, is_zero, arith, ◌⊎◌,
}
use hpktainer.Endpoint.{exit_code_path, id_path}
use hpktainer.Pod.{ContainerState, ContainerStatus}
use hpktainer.Containers.{
  Disk, has, started_at, to_terminated, to_running, to_waiting, next_status, handle_status,
  read_int_from_file, read_string_from_file,
}

-- At most one of the three states is set.
abbrev pub AtMostOne : ContainerState → Type 0
AtMostOne s =
    ((s.waiting ≡ none) × (s.running ≡ none))
    ⊎ (((s.waiting ≡ none) × (s.terminated ≡ none)) ⊎ ((s.running ≡ none) × (s.terminated ≡ none)))

-- The state that the two files stand for: an exit code means terminated, whatever the job id; a job
-- id alone means running; neither means waiting.
abbrev pub Shows : Option ℤ → Option Bytes → ContainerState → Type 0
Shows (some code) job_id s = (has s.terminated ≡ true) × (s.waiting ≡ none) × (s.running ≡ none)
Shows none (some job_id) s = (has s.running ≡ true) × (s.waiting ≡ none) × (s.terminated ≡ none)
Shows none none s = (has s.waiting ≡ true) × (s.running ≡ none) × (s.terminated ≡ none)

next_status-Shows :
    (now : ℕ) (code : Option ℤ) (job_id : Option Bytes) (s : ContainerStatus)
    → AtMostOne s.state
    → Shows code job_id (next_status now code job_id s).state
unfolding next_status to_terminated to_running to_waiting
next_status-Shows now (some code) job_id s h = (refl, refl, refl)
next_status-Shows now none (some job_id) s h = ground arith
next_status-Shows now none none s h = (refl, refl, refl)

next_status-twice :
    (now later : ℕ) (code : Option ℤ) (job_id : Option Bytes) (s : ContainerStatus)
    → let t = next_status now code job_id s in
      (next_status now code job_id t ≡ t)
      × ((next_status later code job_id t).restart_count ≡ t.restart_count)
      × ((next_status later code job_id t).last_termination_state ≡ t.last_termination_state)
unfolding next_status to_terminated to_running to_waiting started_at
next_status-twice now later (some code) job_id s = (refl, refl, refl)
next_status-twice now later none (some job_id) s = (ground arith, ground arith, ground arith)
next_status-twice now later none none s = (refl, refl, refl)

module _ (disk : Disk) (pod_dir : Bytes) (now : ℕ) (s : ContainerStatus) where
  -- If at most one state was set, then after the handler exactly the state that the exit code and job
  -- id files stand for is set, and the other two are not.
  pub handle_status-Shows :
      AtMostOne s.state
      → Shows
          (read_int_from_file (disk (exit_code_path pod_dir s.name)))
          (read_string_from_file (disk (id_path pod_dir s.name)))
          (handle_status disk pod_dir now s).state
  unfolding handle_status
  handle_status-Shows h = next_status-Shows now _ _ s h

  name-next_status :
      (later : ℕ) (code : Option ℤ) (job_id : Option Bytes) (t : ContainerStatus)
      → (next_status later code job_id t).name ≡ t.name
  unfolding next_status to_terminated to_running to_waiting
  name-next_status later (some code) job_id t = refl
  name-next_status later none (some job_id) t = ground arith
  name-next_status later none none t = refl

  pub name-handle_status : (handle_status disk pod_dir now s).name ≡ s.name
  unfolding handle_status
  name-handle_status = name-next_status now _ _ s

  -- While the files stay as they are, handling a container again at the same time changes nothing,
  -- and handling it at any later time counts no further restart and records no further termination.
  pub handle_status-twice :
      (later : ℕ)
      → let t = handle_status disk pod_dir now s in
        (handle_status disk pod_dir now t ≡ t)
        × ((handle_status disk pod_dir later t).restart_count ≡ t.restart_count)
        × ((handle_status disk pod_dir later t).last_termination_state ≡ t.last_termination_state)
  unfolding handle_status
  handle_status-twice later =
      let code = read_int_from_file (disk (exit_code_path pod_dir s.name)) in
      let job_id = read_string_from_file (disk (id_path pod_dir s.name)) in
      rw (name-next_status now code job_id s) (next_status-twice now later code job_id s)

  -- A restart is counted exactly when a container that was not yet terminated is found to have
  -- ended with a non-zero code.
  pub restart_count-handle_status :
      (handle_status disk pod_dir now s).restart_count
      ≡ elim (read_int_from_file (disk (exit_code_path pod_dir s.name))) as (λ x. ℕ) [
        | none ↦ s.restart_count
        | some code ↦
            if has s.state.terminated || is_zero code then s.restart_count else s.restart_count + 1
      ]
  unfolding handle_status next_status to_terminated to_running to_waiting
  restart_count-handle_status = ground arith
