-- ===== src/Cancel.antt =====
-- internal/compute/runtime/cancel.go: termination of the processes of a pod.
-- The signals that are sent and the pauses are the result. Times are in nanoseconds.
pub mod Polling
pub mod Targets
pub mod Examples
use hpktainer.Base.{
  ℕ, zero, suc, ◌+◌, ◌*◌, ◌/◌, List, [], ◌∷◌, ◌++◌, Bytes, if◌then◌else◌, ltb, trim_space,
}
use hpktainer.Identity.{
  KillResult, delivered, no_such_process, other_error, Os, is_process_dead, verify_process_identity,
}
use hpktainer.JobId.{Parsed, parsed, refused, parse_process_job_id}

pub data Signal : Type 0 where
  sigterm sigkill : Signal

-- `process_group pid` is the target -pid.
pub data Effect : Type 0 where
  to_process : ℕ → Signal → Effect
  to_process_group : ℕ → Signal → Effect
  slept : ℕ → Effect

abbrev pub millisecond : ℕ
millisecond = 1000000

pub signal_all : Signal → List ℕ → List Effect
signal_all s [] = []
signal_all s (pid ∷ pids) =
    let rest = signal_all s pids in
    if ltb 1 pid then to_process_group pid s ∷ to_process pid s ∷ rest else rest

pub sweep_secondary_pids : List ℕ → List Effect
unfolding signal_all
sweep_secondary_pids [] = []
sweep_secondary_pids (p ∷ ps) =
    signal_all sigterm (p ∷ ps) ++ slept (200 * millisecond) ∷ signal_all sigkill (p ∷ ps)

keep_verified : Os → Parsed → List ℕ → List ℕ
keep_verified os (refused e) pids = pids
keep_verified os (parsed p start) pids =
    if ltb 1 p then (if verify_process_identity os p start then p ∷ pids else pids) else pids

-- The loop over secondaryPIDStrs. An empty text does not parse either.
pub collect_secondary : Os → List Bytes → List ℕ
unfolding keep_verified
collect_secondary os [] = []
collect_secondary os (s ∷ ss) =
    keep_verified os (parse_process_job_id (trim_space s)) (collect_secondary os ss)

-- How a polling loop ended: the process is dead, the deadline passed, or the loop bound was too
-- small; with the number of the next probe and the time.
pub data Polled : Type 0 where
  dead : Polled
  expired : ℕ → ℕ → Polled
  unbounded : Polled

-- A polling loop; `interval` is the pause at a time.
pub poll : ℕ → Os → (ℕ → ℕ) → ℕ → ℕ → ℕ → List Effect × Polled
poll zero os interval deadline i now = ([], unbounded)
poll (suc fuel) os interval deadline i now =
    let later = now + interval now + os.late i in
    let (effects, end) = poll fuel os interval deadline (suc i) later in
    if is_process_dead (os.probe i)
    then ([], dead)
    else if ltb deadline now
    then ([], expired (suc i) now)
    else (slept (interval now) ∷ effects, end)

-- The results: nil, ErrInvalidJob (also wrapped), and the three other errors.
pub data Outcome : Type 0 where
  terminated invalid_job could_not_kill could_not_sigkill did_not_exit out_of_fuel : Outcome

abbrev pub grace_interval : ℕ → ℕ → ℕ
grace_interval fast_until now = if ltb fast_until now then 250 * millisecond else 50 * millisecond

abbrev pub kill_interval : ℕ → ℕ
kill_interval now = 250 * millisecond

after_kill : Polled → Outcome
after_kill dead = terminated
after_kill (expired i now) = did_not_exit
after_kill unbounded = out_of_fuel

-- The SIGKILLs to the secondary processes and the loop behind them: five seconds, checked every
-- 250 ms; 102 rounds are enough for pauses of 50 ms already.
kill_loop : Os → List ℕ → ℕ → ℕ → List Effect × Outcome
unfolding after_kill
kill_loop os secondary i now =
    let (effects, end) = poll 102 os kill_interval (now + 5000 * millisecond) i now in
    (signal_all sigkill secondary ++ effects, after_kill end)

after_sigkill : KillResult → Os → List ℕ → ℕ → ℕ → List Effect × Outcome
unfolding kill_loop
after_sigkill delivered os secondary i now = kill_loop os secondary i now
after_sigkill no_such_process os secondary i now = kill_loop os secondary i now
after_sigkill other_error os secondary i now = ([], could_not_sigkill)

escalate : Os → ℕ → List ℕ → ℕ → ℕ → List Effect × Outcome
unfolding after_sigkill
escalate os primary secondary i now =
    let (effects, outcome) = after_sigkill os.on_sigkill os secondary i now in
    (to_process primary sigkill ∷ effects, outcome)

after_grace : Os → ℕ → List ℕ → Polled → List Effect × Outcome
unfolding escalate
after_grace os primary secondary dead = ([], terminated)
after_grace os primary secondary (expired i now) = escalate os primary secondary i now
after_grace os primary secondary unbounded = ([], out_of_fuel)

-- The grace period, once SIGTERM is delivered at the time `now`.
wait_or_kill : Os → ℕ → List ℕ → ℕ → ℕ → List Effect × Outcome
unfolding after_grace
wait_or_kill os primary secondary timeout now =
    let fuel = suc (suc (timeout / (50 * millisecond))) in
    let (effects, end) =
      poll fuel os (grace_interval (now + 1000 * millisecond)) (now + timeout) 0 now in
    let (more, outcome) = after_grace os primary secondary end in (effects ++ more, outcome)

after_sigterm : KillResult → Os → ℕ → List ℕ → ℕ → ℕ → List Effect × Outcome
unfolding wait_or_kill
after_sigterm delivered os primary secondary timeout now =
    wait_or_kill os primary secondary timeout now
after_sigterm no_such_process os primary secondary timeout now =
    (sweep_secondary_pids secondary, invalid_job)
after_sigterm other_error os primary secondary timeout now =
    (sweep_secondary_pids secondary, could_not_kill)

kill_primary : Os → Parsed → List ℕ → ℕ → ℕ → List Effect × Outcome
unfolding after_sigterm
kill_primary os (refused e) secondary timeout now = (sweep_secondary_pids secondary, invalid_job)
kill_primary os (parsed pid start) secondary timeout now =
    let (effects, outcome) = after_sigterm os.on_sigterm os pid secondary timeout now in
    if verify_process_identity os pid start
    then (to_process pid sigterm ∷ effects, outcome)
    else (sweep_secondary_pids secondary, invalid_job)

-- KillPodProcessesWithTimeout, called at the time `now`. An empty primary id and one that does not
-- parse are treated alike.
pub kill_pod_processes_with_timeout : Os → Bytes → List Bytes → ℕ → ℕ → List Effect × Outcome
unfolding kill_primary
kill_pod_processes_with_timeout os primary secondary timeout now =
    kill_primary os (parse_process_job_id (trim_space primary)) (collect_secondary os secondary)
      timeout now

-- KillProcessByPIDWithTimeout and KillProcessByPID.
pub kill_process_by_pid_with_timeout : Os → Bytes → ℕ → ℕ → List Effect × Outcome
kill_process_by_pid_with_timeout os pid timeout now =
    kill_pod_processes_with_timeout os pid [] timeout now

pub kill_process_by_pid : Os → Bytes → ℕ → List Effect × Outcome
kill_process_by_pid os pid now = kill_process_by_pid_with_timeout os pid (35000 * millisecond) now
