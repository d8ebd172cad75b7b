-- ===== src/Status/Startup.antt =====
-- Pods that UpdateStatusFromRuntime of internal/compute/podhandler/podStatus.go finds before they run.

use hpktainer.Classifier.{classify_all, reset}
use hpktainer.Base.{
  ℕ, ◌<◌, ◌≡◌, ◌⊎◌, inl, inr, ap, sym, ◌∙◌, Bool, true, false, Option, none, some, List, [], ◌∷◌,
  Bytes, codes, is_zero, if◌then◌else◌, arith, All, length, Bool-cases, map,
}
use hpktainer.Pod.{Terminated, Phase, unset, pending, running, failed, Pod, ContainerStatus}
use hpktainer.Conditions.{pod_error}
use hpktainer.Containers.{Disk, sync_container_statuses}
use hpktainer.Status.{
  Checked, proceed, stop, transition, run_transitions, phase_transition_sequence, check_phase,
  check_init, check_supported, unsupported_fields, init_loop, finish, set_phase, invalid_message,
  and_then, update_status_from_runtime, load_ip, is_initializing, initialized,
}
use hpktainer.Status.Loading.{
  loaded, handled, phase_loaded, containers_loaded, statuses_loaded, init_statuses_loaded,
}

abbrev completed_state : Option Terminated → Bool
completed_state none = false
completed_state (some t) = is_zero t.exit_code

-- The container has ended with exit code 0.
abbrev pub Completed : ContainerStatus → Type 0
Completed s = completed_state s.state.terminated ≡ true

abbrev goes_on : Checked → Bool
goes_on (proceed q) = true
goes_on (stop q) = false

abbrev pod_of : Checked → Pod
pod_of (proceed q) = q
pod_of (stop q) = q

module _ (disk : Disk) (hpk : Bytes) (now : ℕ) (message : Bytes) (pod : Pod) where
  check_phase_initial :
      (pod.status.phase ≡ unset) ⊎ (pod.status.phase ≡ pending)
      → unsupported_fields pod ≡ []
      → check_phase now pod.status.phase pod ≡ proceed pod
  unfolding check_phase
  check_phase_initial (inl h) u =
      ap (λ (x : Phase). check_phase now x pod) h
      ∙ ap (λ (x : List Bytes). check_supported now x pod) u
  check_phase_initial (inr h) u = ap (λ (x : Phase). check_phase now x pod) h

  check_init_initial :
      (p : Pod)
      → (p.status.phase ≡ unset) ⊎ (p.status.phase ≡ pending)
      → p.status.init_container_statuses ≡ []
      → check_init now p ≡ proceed (initialized now p)
  unfolding check_init is_initializing and_then init_loop
  check_init_initial p h e =
      let ready = initialized now p in
      let no_init =
        ap
          (λ (x : List ContainerStatus).
            if is_initializing p.status.phase
            then and_then (init_loop now x p) (λ q. proceed (initialized now q))
            else proceed p)
          e in
      let starts = λ (x : Phase). if is_initializing x then proceed ready else proceed p in
      no_init ∙ elim h [ inl u ↦ ap starts u | inr u ↦ ap starts u ]

  transitions_empty :
      (p : Pod) (n : ℕ)
      → 0 < n
      → run_transitions now message (phase_transition_sequence now n reset) p
        ≡ set_phase failed (codes "PodFailure") (invalid_message reset) p
  unfolding run_transitions phase_transition_sequence
  transitions_empty p n h = ground arith

  transition_empty :
      (p : Pod)
      → p.status.container_statuses ≡ []
      → 0 < length p.containers
      → transition now message p ≡ set_phase failed (codes "PodFailure") (invalid_message reset) p
  unfolding transition classify_all
  transition_empty p e h =
      ap
        (λ (x : List ContainerStatus).
          run_transitions now message
            (phase_transition_sequence now (length p.containers) (classify_all reset x)) p)
        e
      ∙ transitions_empty p (length p.containers) h

  -- A pod that is still to be initialised, whose fields are all supported, and that has containers
  -- but no statuses yet, is declared failed for the reason PodFailure.
  pub update-no_statuses :
      (pod.status.phase ≡ unset) ⊎ (pod.status.phase ≡ pending)
      → unsupported_fields pod ≡ []
      → pod.status.init_container_statuses ≡ []
      → pod.status.container_statuses ≡ []
      → 0 < length pod.containers
      → let q = update_status_from_runtime disk hpk now message pod in
        (q.status.phase ≡ failed) × (q.status.reason ≡ codes "PodFailure")
  unfolding update_status_from_runtime finish and_then loaded set_phase initialized
  update-no_statuses h u i e l =
      let p = loaded disk hpk now pod in
      let same = phase_loaded disk hpk now pod in
      let none_yet : (initialized now p).status.container_statuses ≡ [] =
        (statuses_loaded disk hpk now pod)
        ∙ ap (λ (x : List ContainerStatus). map (handled disk hpk now pod) x) e in
      let started =
        ap
          (λ (x : Checked).
            finish
              (and_then x
                (λ q. check_init now (sync_container_statuses disk hpk now (load_ip disk hpk q))))
              (transition now message))
          (check_phase_initial h u)
        ∙ ap (λ (x : Checked). finish x (transition now message))
            (check_init_initial p (elim h [ inl a ↦ inl (same ∙ a) | inr a ↦ inr (same ∙ a) ])
              (init_statuses_loaded disk hpk now pod
                ∙ ap (λ (x : List ContainerStatus). map (handled disk hpk now pod) x) i))
        ∙ transition_empty (initialized now p) none_yet
            (rw (containers_loaded disk hpk now pod) l) in
      (ap (λ (x : Pod). x.status.phase) started, ap (λ (x : Pod). x.status.reason) started)

  init_loop-proceeds :
      (ss : List ContainerStatus) (p : Pod) → goes_on (init_loop now ss p) ≡ true → All Completed ss
  unfolding init_loop
  init_loop-proceeds [] p h = tt
  init_loop-proceeds (s ∷ ss) p h = ground (arith, init_loop-proceeds ss p)

  init_loop-stops :
      (ss : List ContainerStatus) (p : Pod)
      → goes_on (init_loop now ss p) ≡ false
      → (pod_of (init_loop now ss p) ≡ p) ⊎ ((pod_of (init_loop now ss p)).status.phase ≡ failed)
  unfolding init_loop pod_error
  init_loop-stops [] p h = ground arith
  init_loop-stops (s ∷ ss) p h = ground (arith, init_loop-stops ss p)

  finish_stopped :
      (c : Checked) (f : Pod → Checked) (g : Pod → Pod)
      → goes_on c ≡ false
      → finish (and_then c f) g ≡ pod_of c
  unfolding finish and_then
  finish_stopped c f g h = ground arith

  update_initial :
      (pod.status.phase ≡ unset) ⊎ (pod.status.phase ≡ pending)
      → unsupported_fields pod ≡ []
      → update_status_from_runtime disk hpk now message pod
        ≡ finish (check_init now (loaded disk hpk now pod)) (transition now message)
  unfolding update_status_from_runtime finish and_then loaded
  update_initial h u =
      ap
        (λ (x : Checked).
          finish
            (and_then x
              (λ q. check_init now (sync_container_statuses disk hpk now (load_ip disk hpk q))))
            (transition now message))
        (check_phase_initial h u)

  check_init_loop :
      (p : Pod)
      → (p.status.phase ≡ unset) ⊎ (p.status.phase ≡ pending)
      → check_init now p
        ≡ and_then
            (init_loop now p.status.init_container_statuses p)
            (λ q. proceed (initialized now q))
  unfolding check_init is_initializing
  check_init_loop p h =
      let starts = λ (x : Phase).
        if is_initializing x
        then and_then (init_loop now p.status.init_container_statuses p)
            (λ q. proceed (initialized now q))
        else proceed p in
      elim h [ inl u ↦ ap starts u | inr u ↦ ap starts u ]

  update_stopped :
      let p = loaded disk hpk now pod in
      (p.status.phase ≡ unset) ⊎ (p.status.phase ≡ pending)
      → goes_on (init_loop now p.status.init_container_statuses p) ≡ false
      → finish (check_init now p) (transition now message)
        ≡ pod_of (init_loop now p.status.init_container_statuses p)
  update_stopped h e =
      let p = loaded disk hpk now pod in
      ap (λ (x : Checked). finish x (transition now message)) (check_init_loop p h)
      ∙ finish_stopped (init_loop now p.status.init_container_statuses p)
          (λ q. proceed (initialized now q)) (transition now message) e

  never_running :
      (p q : Pod)
      → (p.status.phase ≡ unset) ⊎ (p.status.phase ≡ pending)
      → (q ≡ p) ⊎ (q.status.phase ≡ failed)
      → ¬ (q.status.phase ≡ running)
  never_running p q h (inl s) r = let same = ap (λ (x : Pod). x.status.phase) s in ground arith
  never_running p q h (inr s) r = ground arith

  -- A pod that was still to be initialised and has no unsupported fields is running after the update
  -- only if every init container has by then ended with exit code 0.
  pub running_after-init :
      (pod.status.phase ≡ unset) ⊎ (pod.status.phase ≡ pending)
      → unsupported_fields pod ≡ []
      → (update_status_from_runtime disk hpk now message pod).status.phase ≡ running
      → All Completed (map (handled disk hpk now pod) pod.status.init_container_statuses)
  running_after-init h u r =
      let p = loaded disk hpk now pod in
      let loop = init_loop now p.status.init_container_statuses p in
      let same = phase_loaded disk hpk now pod in
      let initial : (p.status.phase ≡ unset) ⊎ (p.status.phase ≡ pending) = elim h [
        | inl a ↦ inl (same ∙ a)
        | inr a ↦ inr (same ∙ a)
      ] in
      elim (Bool-cases (goes_on loop)) [
        | inl e ↦
            rw (← init_statuses_loaded disk hpk now pod)
              (init_loop-proceeds p.status.init_container_statuses p e)
        | inr e ↦ absurd (
            never_running p (pod_of loop) initial
              (init_loop-stops p.status.init_container_statuses p e)
              (ap (λ (x : Pod). x.status.phase)
                  (sym (update_initial h u ∙ update_stopped initial e))
                ∙ r))
      ]
