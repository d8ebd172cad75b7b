-- ===== src/Cancel/Examples.antt =====
-- Tests and instances for internal/compute/runtime/cancel.go.
use hpktainer.Identity.{
  Os, Probe, alive_or_dead, delivered, get_process_start_time, is_dead_state, is_process_dead,
  stat_state, verify_process_identity,
}
use hpktainer.Base.{
  ℕ, zero, suc, ◌*◌, ◌≡◌, ◌≢◌, refl, ap, false, none, some, List, [], ◌∷◌, codes, All, trim_left,
  scan_digits, parse_magnitude, trim_space, split, parse_uint, cut_prefix, after_last, fields,
}
use hpktainer.JobId.{parse_process_job_id, positive_int}
use hpktainer.Cancel.{
  Effect, to_process, to_process_group, slept, sigterm, sigkill, Outcome, terminated, out_of_fuel,
  millisecond, kill_pod_processes_with_timeout, collect_secondary, poll, kill_primary,
  after_sigterm, wait_or_kill, after_grace, escalate, after_sigkill, kill_loop, after_kill,
  signal_all, sweep_secondary_pids, keep_verified,
}
use hpktainer.Cancel.Polling.{kill_pod_processes_with_timeout-terminates}
use hpktainer.Cancel.Targets.{Authorised, kill_pod_processes_with_timeout-Authorised}

start_time :
    get_process_start_time
      (some (codes "42 (a (b) c) S 1 1 1 0 -1 4 1 0 0 0 0 0 0 0 20 0 1 0 9876 5 6"))
    ≡ some 9876
unfolding get_process_start_time after_last fields parse_uint
start_time = refl

-- Dead at the third look.
abbrev probes : ℕ → Probe
probes zero = record {
  kill_zero = delivered;
  priority_esrch = false;
  pgid_esrch = false;
  stat = none;
}
probes (suc zero) = record {
  kill_zero = delivered;
  priority_esrch = false;
  pgid_esrch = false;
  stat = some (codes "42 (x) S 1");
}
probes _ = record {
  kill_zero = delivered;
  priority_esrch = false;
  pgid_esrch = false;
  stat = some (codes "42 (x) Z 1");
}

abbrev os : Os
os = record {
  has_proc = false;
  stat_of = λ pid. none;
  on_sigterm = delivered;
  on_sigkill = delivered;
  probe = probes;
  late = λ i. 3;
}

run :
    kill_pod_processes_with_timeout os (codes "pid://42") (codes "77" ∷ []) (200 * millisecond) 1000
    ≡ (to_process 42 sigterm ∷ slept (50 * millisecond) ∷ slept (50 * millisecond) ∷ [], terminated)
unfolding kill_pod_processes_with_timeout kill_primary after_sigterm wait_or_kill after_grace
    escalate after_sigkill kill_loop after_kill signal_all sweep_secondary_pids collect_secondary
    keep_verified verify_process_identity poll is_process_dead parse_process_job_id positive_int
    trim_space trim_left split cut_prefix parse_magnitude scan_digits parse_uint after_last
    alive_or_dead is_dead_state stat_state
run = refl

-- With no time for the process to end, it is killed, and so are the secondary ones.
run_short :
    kill_pod_processes_with_timeout os (codes "pid://42") (codes "77" ∷ codes "1" ∷ []) 0 1000 ≡ (
      to_process 42 sigterm
          ∷ slept (50 * millisecond)
          ∷ to_process 42 sigkill
          ∷ to_process_group 77 sigkill
          ∷ to_process 77 sigkill
          ∷ [],
      terminated,
    )
unfolding kill_pod_processes_with_timeout kill_primary after_sigterm wait_or_kill after_grace
    escalate after_sigkill kill_loop after_kill signal_all sweep_secondary_pids collect_secondary
    keep_verified verify_process_identity poll is_process_dead parse_process_job_id positive_int
    trim_space trim_left split cut_prefix parse_magnitude scan_digits parse_uint after_last
    alive_or_dead is_dead_state stat_state
run_short = refl

kill_pod_processes_with_timeout-terminates_example :
    (kill_pod_processes_with_timeout os (codes "pid://42") [] (200 * millisecond) 1000).1
    ≢ out_of_fuel
kill_pod_processes_with_timeout-terminates_example =
    kill_pod_processes_with_timeout-terminates os (codes "pid://42") [] (200 * millisecond) 1000

ended :
    (kill_pod_processes_with_timeout os
      (codes "pid://42")
      (codes "77" ∷ [])
      (200 * millisecond)
      1000).1
    ≡ terminated
ended = ap (λ (r : List Effect × Outcome). r.1) run

kill_pod_processes_with_timeout-Authorised_example :
    All
      (Authorised os (codes "pid://42") (codes "77" ∷ []))
      (kill_pod_processes_with_timeout os (codes "pid://42") (codes "77" ∷ []) 0 1000).0
kill_pod_processes_with_timeout-Authorised_example =
    kill_pod_processes_with_timeout-Authorised os (codes "pid://42") (codes "77" ∷ []) 0 1000
