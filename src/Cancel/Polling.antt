-- ===== src/Cancel/Polling.antt =====
-- The polling loops of internal/compute/runtime/cancel.go.
use hpktainer.Identity.{KillResult, Os, delivered, is_process_dead, no_such_process, other_error}
use hpktainer.Base.{
  ℕ, zero, suc, ◌+◌, ◌*◌, ◌/◌, ◌≤◌, ◌<◌, ◌≡◌, ◌≢◌, refl, Bool, true, false, List, Bytes, arith,
  Bool-cases, inl, inr, trim_space,
}
use hpktainer.JobId.{Parsed, parsed, refused, parse_process_job_id}
use hpktainer.Cancel.{
  Polled, dead, expired, unbounded, poll, terminated, out_of_fuel, after_kill, kill_loop,
  after_sigkill, escalate, after_grace, wait_or_kill, after_sigterm, kill_primary,
  kill_pod_processes_with_timeout, millisecond, grace_interval, kill_interval, collect_secondary,
}

abbrev bounded : Polled → Bool
bounded unbounded = false
bounded _ = true

-- The pauses carry the time past the deadline before the rounds are used up.
poll-bounded :
    (n : ℕ) (os : Os) (interval : ℕ → ℕ) (deadline i now : ℕ)
    → ((t : ℕ) → 50 * millisecond ≤ interval t)
    → deadline < now + n * (50 * millisecond)
    → bounded (poll (suc n) os interval deadline i now).1 ≡ true
unfolding poll
poll-bounded zero os interval deadline i now long h = ground arith
poll-bounded (suc n) os interval deadline i now long h = ground (
  arith,
  long now,
  poll-bounded n os interval deadline (suc i) (now + interval now + os.late i) long,
)

-- A loop that ends because the process is dead has seen it dead.
poll-dead :
    (n : ℕ) (os : Os) (interval : ℕ → ℕ) (deadline i now : ℕ)
    → (poll n os interval deadline i now).1 ≡ dead
    → (j : ℕ) × (is_process_dead (os.probe j) ≡ true)
unfolding poll
poll-dead zero os interval deadline i now h = ground arith
poll-dead (suc n) os interval deadline i now h = elim (Bool-cases (is_process_dead (os.probe i))) [
  | inl e ↦ (i, e)
  | inr e ↦ poll-dead n os interval deadline (suc i) (now + interval now + os.late i) (ground arith)
]

abbrev WasDead : Os → Type 0
WasDead os = (j : ℕ) × (is_process_dead (os.probe j) ≡ true)

module _ (os : Os) (primary : ℕ) (secondary : List ℕ) where
  escalate-bounded : (i now : ℕ) → (escalate os primary secondary i now).1 ≢ out_of_fuel
  unfolding escalate after_sigkill kill_loop after_kill
  escalate-bounded i now e = ground (
    arith,
    poll-bounded 101 os kill_interval (now + 5000 * millisecond) i now (λ t. omega arith)
        (omega arith),
  )

  after_grace-bounded :
      (end : Polled) → bounded end ≡ true → (after_grace os primary secondary end).1 ≢ out_of_fuel
  unfolding after_grace
  after_grace-bounded dead h e = ground arith
  after_grace-bounded (expired i now) h e = escalate-bounded i now e
  after_grace-bounded unbounded h e = ground arith

  wait_or_kill-bounded :
      (timeout now : ℕ) → (wait_or_kill os primary secondary timeout now).1 ≢ out_of_fuel
  unfolding wait_or_kill
  wait_or_kill-bounded timeout now = after_grace-bounded _ (
      poll-bounded (suc (timeout / (50 * millisecond))) os
        (grace_interval (now + 1000 * millisecond)) (now + timeout) 0 now (λ t. ground arith)
        (omega arith))

  escalate-dead : (i now : ℕ) → (escalate os primary secondary i now).1 ≡ terminated → WasDead os
  unfolding escalate after_sigkill kill_loop after_kill
  escalate-dead i now h =
      poll-dead 102 os kill_interval (now + 5000 * millisecond) i now (ground arith)

  after_grace-dead :
      (end : Polled)
      → (end ≡ dead → WasDead os)
      → (after_grace os primary secondary end).1 ≡ terminated
      → WasDead os
  unfolding after_grace
  after_grace-dead dead seen h = seen refl
  after_grace-dead (expired i now) seen h = escalate-dead i now h
  after_grace-dead unbounded seen h = absurd (ground arith)

  wait_or_kill-dead :
      (timeout now : ℕ)
      → (wait_or_kill os primary secondary timeout now).1 ≡ terminated
      → WasDead os
  unfolding wait_or_kill
  wait_or_kill-dead timeout now = after_grace-dead _ (
      poll-dead (suc (suc (timeout / (50 * millisecond)))) os
        (grace_interval (now + 1000 * millisecond)) (now + timeout) 0 now)

  after_sigterm-bounded :
      (r : KillResult) (timeout now : ℕ)
      → (after_sigterm r os primary secondary timeout now).1 ≢ out_of_fuel
  unfolding after_sigterm
  after_sigterm-bounded delivered timeout now e = wait_or_kill-bounded timeout now e
  after_sigterm-bounded no_such_process timeout now e = ground arith
  after_sigterm-bounded other_error timeout now e = ground arith

  after_sigterm-dead :
      (r : KillResult) (timeout now : ℕ)
      → (after_sigterm r os primary secondary timeout now).1 ≡ terminated
      → WasDead os
  unfolding after_sigterm
  after_sigterm-dead delivered timeout now h = wait_or_kill-dead timeout now h
  after_sigterm-dead no_such_process timeout now h = absurd (ground arith)
  after_sigterm-dead other_error timeout now h = absurd (ground arith)

kill_primary-bounded :
    (os : Os) (p : Parsed) (secondary : List ℕ) (timeout now : ℕ)
    → (kill_primary os p secondary timeout now).1 ≢ out_of_fuel
unfolding kill_primary
kill_primary-bounded os (refused r) secondary timeout now e = ground arith
kill_primary-bounded os (parsed pid start) secondary timeout now e =
    ground (arith, after_sigterm-bounded os pid secondary os.on_sigterm timeout now)

kill_primary-dead :
    (os : Os) (p : Parsed) (secondary : List ℕ) (timeout now : ℕ)
    → (kill_primary os p secondary timeout now).1 ≡ terminated
    → WasDead os
unfolding kill_primary
kill_primary-dead os (refused r) secondary timeout now h = absurd (ground arith)
kill_primary-dead os (parsed pid start) secondary timeout now h =
    after_sigterm-dead os pid secondary os.on_sigterm timeout now (ground arith)

module _ (os : Os) (primary : Bytes) (secondary : List Bytes) (timeout now : ℕ) where
  -- The two polling loops end on their own: the rounds that the model allows are enough, so every
  -- call has one of the results of the source.
  pub kill_pod_processes_with_timeout-terminates :
      (kill_pod_processes_with_timeout os primary secondary timeout now).1 ≢ out_of_fuel
  unfolding kill_pod_processes_with_timeout
  kill_pod_processes_with_timeout-terminates =
      kill_primary-bounded os (parse_process_job_id (trim_space primary))
        (collect_secondary os secondary) timeout now

  -- If the call reports success, a call of isProcessDead has seen the primary process dead.
  pub kill_pod_processes_with_timeout-dead :
      (kill_pod_processes_with_timeout os primary secondary timeout now).1 ≡ terminated
      → (j : ℕ) × (is_process_dead (os.probe j) ≡ true)
  unfolding kill_pod_processes_with_timeout
  kill_pod_processes_with_timeout-dead =
      kill_primary-dead os (parse_process_job_id (trim_space primary))
        (collect_secondary os secondary) timeout now
