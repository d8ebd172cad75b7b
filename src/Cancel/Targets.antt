-- ===== src/Cancel/Targets.antt =====
-- Whom the signals of internal/compute/runtime/cancel.go are sent to.
use hpktainer.Identity.{
  KillResult, Os, delivered, is_process_dead, no_such_process, other_error, verify_process_identity,
}
use hpktainer.Base.{
  ℕ, zero, suc, ◌+◌, ◌*◌, ◌/◌, ◌<◌, ◌≡◌, refl, true, List, [], ◌∷◌, Bytes, ltb, arith, All,
  All-append, Bool-cases, inl, inr, trim_space,
}
use hpktainer.JobId.{Parsed, parsed, refused, parse_process_job_id}
use hpktainer.Cancel.{
  Effect, to_process, to_process_group, slept, Signal, sigterm, sigkill, signal_all,
  sweep_secondary_pids, keep_verified, collect_secondary, Polled, dead, expired, unbounded, poll,
  after_sigkill, kill_loop, escalate, after_grace, wait_or_kill, after_sigterm, kill_primary,
  kill_pod_processes_with_timeout, millisecond, grace_interval, kill_interval,
}

-- One of the texts is the id of the process, and with its start time the identity is accepted.
pub data Recorded (os : Os) : List Bytes → ℕ → Type 0 where
  here :
      {s : Bytes} {ss : List Bytes} {p start : ℕ}
      → parse_process_job_id (trim_space s) ≡ parsed p start
      → verify_process_identity os p start ≡ true
      → Recorded os (s ∷ ss) p
  there : {s : Bytes} {ss : List Bytes} {p : ℕ} → Recorded os ss p → Recorded os (s ∷ ss) p

-- A process may be signalled if a text records it, and a process group if a secondary text records
-- its leader, which is not init.
abbrev pub Authorised : Os → Bytes → List Bytes → Effect → Type 0
Authorised os primary secondary (to_process p s) = Recorded os (primary ∷ secondary) p
Authorised os primary secondary (to_process_group p s) = (1 < p) × Recorded os secondary p
Authorised os primary secondary (slept t) = Unit

All-map_tail :
    (os : Os) (s : Bytes) (ss : List Bytes) (ps : List ℕ)
    → All (λ p. (1 < p) × Recorded os ss p) ps
    → All (λ p. (1 < p) × Recorded os (s ∷ ss) p) ps
All-map_tail os s ss [] h = tt
All-map_tail os s ss (p ∷ ps) h = ((h.0.0, there h.0.1), All-map_tail os s ss ps h.1)

keep_verified-Recorded :
    (os : Os) (s : Bytes) (ss : List Bytes) (r : Parsed) (ps : List ℕ)
    → parse_process_job_id (trim_space s) ≡ r
    → All (λ p. (1 < p) × Recorded os (s ∷ ss) p) ps
    → All (λ p. (1 < p) × Recorded os (s ∷ ss) p) (keep_verified os r ps)
unfolding keep_verified
keep_verified-Recorded os s ss (refused e) ps h k = k
keep_verified-Recorded os s ss (parsed p start) ps h k = elim (Bool-cases (ltb 1 p)) [
  | inr n ↦ rw n k
  | inl y ↦ elim (Bool-cases (verify_process_identity os p start)) [
    | inr n ↦ rw y (rw n k)
    | inl v ↦ rw y (rw v ((ground arith, here h v), k))
  ]
]

collect_secondary-Recorded :
    (os : Os) (ss : List Bytes) → All (λ p. (1 < p) × Recorded os ss p) (collect_secondary os ss)
unfolding collect_secondary
collect_secondary-Recorded os [] = tt
collect_secondary-Recorded os (s ∷ ss) =
    keep_verified-Recorded os s ss (parse_process_job_id (trim_space s)) (collect_secondary os ss)
      refl (All-map_tail os s ss (collect_secondary os ss) (collect_secondary-Recorded os ss))

module _ (os : Os) (primary : Bytes) (texts : List Bytes) where
  abbrev Good : Effect → Type 0
  Good e = Authorised os primary texts e

  abbrev Known : List ℕ → Type 0
  Known ps = All (λ p. (1 < p) × Recorded os texts p) ps

  signal_all-Good : (s : Signal) (ps : List ℕ) → Known ps → All Good (signal_all s ps)
  unfolding signal_all
  signal_all-Good s [] h = tt
  signal_all-Good s (p ∷ ps) h =
      let above : ltb 1 p ≡ true = ground (arith, h.0.0) in
      rw above (h.0, (there h.0.1, signal_all-Good s ps h.1))

  sweep-Good : (ps : List ℕ) → Known ps → All Good (sweep_secondary_pids ps)
  unfolding sweep_secondary_pids
  sweep-Good [] h = tt
  sweep-Good (p ∷ ps) h =
      All-append (λ e. Good e) (signal_all sigterm (p ∷ ps))
        (slept (200 * millisecond) ∷ signal_all sigkill (p ∷ ps))
        (signal_all-Good sigterm (p ∷ ps) h) (tt, signal_all-Good sigkill (p ∷ ps) h)

  poll-Good :
      (n : ℕ) (interval : ℕ → ℕ) (deadline i now : ℕ)
      → All Good (poll n os interval deadline i now).0
  unfolding poll
  poll-Good zero interval deadline i now = tt
  poll-Good (suc n) interval deadline i now = elim (Bool-cases (is_process_dead (os.probe i))) [
    | inl e ↦ rw e tt
    | inr e ↦ elim (Bool-cases (ltb deadline now)) [
      | inl l ↦ rw e (rw l tt)
      | inr l ↦
          rw e (rw l (tt, poll-Good n interval deadline (suc i) (now + interval now + os.late i)))
    ]
  ]

  module _ (pid : ℕ) (mine : Recorded os (primary ∷ texts) pid) (ps : List ℕ)
      (known : Known ps) where
    after_sigkill-Good : (r : KillResult) (i now : ℕ) → All Good (after_sigkill r os ps i now).0
    unfolding after_sigkill kill_loop
    after_sigkill-Good delivered i now =
        All-append (λ e. Good e) (signal_all sigkill ps) _ (signal_all-Good sigkill ps known)
          (poll-Good 102 kill_interval (now + 5000 * millisecond) i now)
    after_sigkill-Good no_such_process i now =
        All-append (λ e. Good e) (signal_all sigkill ps) _ (signal_all-Good sigkill ps known)
          (poll-Good 102 kill_interval (now + 5000 * millisecond) i now)
    after_sigkill-Good other_error i now = tt

    after_grace-Good : (end : Polled) → All Good (after_grace os pid ps end).0
    unfolding after_grace escalate
    after_grace-Good dead = tt
    after_grace-Good (expired i now) = (mine, after_sigkill-Good os.on_sigkill i now)
    after_grace-Good unbounded = tt

    after_sigterm-Good :
        (r : KillResult) (timeout now : ℕ) → All Good (after_sigterm r os pid ps timeout now).0
    unfolding after_sigterm wait_or_kill
    after_sigterm-Good delivered timeout now =
        All-append (λ e. Good e) _ _
          (poll-Good (suc (suc (timeout / (50 * millisecond))))
            (grace_interval (now + 1000 * millisecond)) (now + timeout) 0 now)
          (after_grace-Good _)
    after_sigterm-Good no_such_process timeout now = sweep-Good ps known
    after_sigterm-Good other_error timeout now = sweep-Good ps known

  kill_primary-Good :
      (r : Parsed) (ps : List ℕ) (timeout now : ℕ)
      → parse_process_job_id (trim_space primary) ≡ r
      → Known ps
      → All Good (kill_primary os r ps timeout now).0
  unfolding kill_primary
  kill_primary-Good (refused e) ps timeout now h known = sweep-Good ps known
  kill_primary-Good (parsed pid start) ps timeout now h known =
      elim (Bool-cases (verify_process_identity os pid start)) [
        | inl v ↦
            rw v (here h v, after_sigterm-Good pid (here h v) ps known os.on_sigterm timeout now)
        | inr v ↦ rw v (sweep-Good ps known)
      ]

  -- Every signal goes to a process whose id stands in one of the texts and whose identity
  -- verifyProcessIdentity accepts, or to the group of such a process of a secondary text with a pid
  -- above 1.
  pub kill_pod_processes_with_timeout-Authorised :
      (timeout now : ℕ)
      → All
          (Authorised os primary texts)
          (kill_pod_processes_with_timeout os primary texts timeout now).0
  unfolding kill_pod_processes_with_timeout
  kill_pod_processes_with_timeout-Authorised timeout now =
      kill_primary-Good (parse_process_job_id (trim_space primary)) (collect_secondary os texts)
        timeout now refl (collect_secondary-Recorded os texts)
