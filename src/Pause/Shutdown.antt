-- ===== src/Pause/Shutdown.antt =====
-- What is left running when main of cmd/hpk-pause/main.go returns.
use hpktainer.Base.{ℕ, zero, suc, ◌+◌, ◌≡◌, ◌≢◌, refl, true, false, arith}
use hpktainer.Pause.Lifecycle.{
  Position, preparing, waiting_for_context, before_init, starting, returned, listening, finished,
  Pause, start_pause, move, start_container, start_process, give_up_start, give_up_id,
  container_done, unwaited_done, signal_arrives, take_signal, force, close_done, cancel_context,
  Internal, prepared, prepare_fails, start_init, init_not_started, init_ends, init_fails, all_init,
  start_main, all_started, context_done, process_starts, start_fails, id_fails, main_ends,
  unwaited_ends, taken, grace_over, closed, drained, Step, internal, signal, Steps, here, next,
  Reachable,
}

-- The context is cancelled by the handler alone, as the last thing it does.
pub record Coherent (p : Pause) : Type 0 where
  pub fresh : p.handler ≡ listening → p.all_done ≡ false
  pub by_handler : p.cancelled ≡ true → p.handler ≡ finished
  pub ended : p.handler ≡ finished → p.cancelled ≡ true
  pub after_done : p.position ≡ returned → p.handler ≡ finished

Internal-Coherent : {p q : Pause} → Internal p q → Coherent p → Coherent q
unfolding move start_container start_process give_up_start give_up_id container_done unwaited_done
    take_signal force close_done cancel_context
Internal-Coherent (prepared e) c = ground arith
Internal-Coherent (prepare_fails e) c = ground arith
Internal-Coherent (start_init left e) c = ground arith
Internal-Coherent (init_not_started left e) c = ground arith
Internal-Coherent (init_ends left e) c = ground arith
Internal-Coherent (init_fails left e) c = ground arith
Internal-Coherent (all_init e) c = ground arith
Internal-Coherent (start_main left e) c = ground arith
Internal-Coherent (all_started e) c = ground arith
Internal-Coherent (context_done e f) c = ground arith
Internal-Coherent (process_starts others a e) c = ground arith
Internal-Coherent (start_fails others a e) c = ground arith
Internal-Coherent (id_fails others a e) c = ground arith
Internal-Coherent (main_ends others a e) c = ground arith
Internal-Coherent (unwaited_ends others a e) c = ground arith
Internal-Coherent (taken a e f) c = ground arith
Internal-Coherent (grace_over a e) c = ground arith
Internal-Coherent (closed a w d u r) c = ground arith
Internal-Coherent (drained a w d) c = ground arith

step-Coherent : {p q : Pause} → Step p q → Coherent p → Coherent q
unfolding signal_arrives
step-Coherent (internal s) c = Internal-Coherent s c
step-Coherent (signal a) c = ground arith

pub Reachable-Coherent : (i n : ℕ) {p : Pause} → Reachable i n p → Coherent p
unfolding start_pause
Reachable-Coherent i n here = ground arith
Reachable-Coherent i n (next r s) = step-Coherent s (Reachable-Coherent i n r)

-- A run that begins where the main goroutine waits for the context, and no signal has been taken.
record Settled (p : Pause) : Type 0 where
  pub position : p.position ≢ returned → p.position ≡ waiting_for_context
  pub started : p.all_done ≡ true → p.unstarted ≡ 0
  pub done : p.all_done ≡ true → p.waiting ≡ 0
  pub cancelled : p.cancelled ≡ true → p.all_done ≡ true
  pub exit : p.position ≡ returned → p.cancelled ≡ true

Internal-Settled : {p q : Pause} → Internal p q → Settled p → Settled q
unfolding move start_container start_process give_up_start give_up_id container_done unwaited_done
    take_signal force close_done cancel_context
Internal-Settled (prepared e) c = ground arith
Internal-Settled (prepare_fails e) c = ground arith
Internal-Settled (start_init left e) c = ground arith
Internal-Settled (init_not_started left e) c = ground arith
Internal-Settled (init_ends left e) c = ground arith
Internal-Settled (init_fails left e) c = ground arith
Internal-Settled (all_init e) c = ground arith
Internal-Settled (start_main left e) c = ground arith
Internal-Settled (all_started e) c = ground arith
Internal-Settled (context_done e f) c = ground arith
Internal-Settled (process_starts others a e) c = ground arith
Internal-Settled (start_fails others a e) c = ground arith
Internal-Settled (id_fails others a e) c = ground arith
Internal-Settled (main_ends others a e) c = ground arith
Internal-Settled (unwaited_ends others a e) c = ground arith
Internal-Settled (taken a e f) c = ground arith
Internal-Settled (grace_over a e) c = ground arith
Internal-Settled (closed a w d u r) c = ground arith
Internal-Settled (drained a w d) c = ground arith

step-Settled : {p q : Pause} → Step p q → Settled p → Settled q
unfolding signal_arrives
step-Settled (internal s) c = Internal-Settled s c
step-Settled (signal a) c = ground arith

Steps-Settled : {p q : Pause} → Steps p q → Settled p → Settled q
Steps-Settled here c = c
Steps-Settled (next r s) c = step-Settled s (Steps-Settled r c)

-- If the signal is taken only after the goroutine of every main container was started, that is, if the
-- main goroutine of a reachable state waits for the context and the handler has not taken a signal,
-- then in any later state in which main has returned, each of these goroutines is done. So the only
-- processes of main containers that may still run are those whose id file could not be written, which
-- executeContainer does not wait for.
pub returned-waiting :
    (i n : ℕ) {p q : Pause}
    → Reachable i n p
    → p.position ≡ waiting_for_context
    → p.handler ≡ listening
    → Steps p q
    → q.position ≡ returned
    → (q.unstarted ≡ 0) × (q.waiting ≡ 0)
returned-waiting i n {p} {q} r w l s e =
    let c = Reachable-Coherent i n r in
    let start : Settled p = ground arith in let end = Steps-Settled s start in ground arith

Steps-append : {p q r : Pause} → Steps p q → Steps q r → Steps p r
Steps-append s here = s
Steps-append s (next t step) = next (Steps-append s t) step

module _ (i n : ℕ) where
  -- The handler has returned.
  abbrev armed : Position → ℕ → ℕ → Pause
  armed position unstarted waiting = record {
    init_containers = i;
    containers = n;
    position = position;
    handler = finished;
    pending = false;
    all_done = true;
    cancelled = true;
    unstarted = unstarted;
    waiting = waiting;
    unwaited = 0;
  }

  handler_first : Reachable i n (armed preparing 0 0)
  unfolding start_pause signal_arrives take_signal close_done cancel_context
  handler_first =
      next
        (next (next (next here (signal tt)) (internal (taken tt refl refl)))
          (internal (closed tt tt refl refl refl)))
        (internal (drained tt tt refl))

  run_init : (k : ℕ) → Steps (armed (before_init k) 0 0) (armed (before_init 0) 0 0)
  unfolding move
  run_init zero = here
  run_init (suc k) =
      Steps-append (next (next here (internal (start_init k refl))) (internal (init_ends k refl)))
        (run_init k)

  -- Each goroutine is started, and starts its process.
  run_main :
      (k r total : ℕ) → r + k ≡ total → Steps (armed (starting k) 0 r) (armed (starting 0) 0 total)
  unfolding start_container start_process
  run_main zero r total h = let same : r ≡ total = omega arith in rw same here
  run_main (suc k) r total h =
      Steps-append
        (next (next here (internal (start_main k refl))) (internal (process_starts 0 tt refl)))
        (run_main k (suc r) total (omega arith))

  returned_armed : Reachable i n (armed returned 0 n)
  unfolding move
  returned_armed =
      next
        (next
          (Steps-append
            (next (Steps-append (next handler_first (internal (prepared refl))) (run_init i))
              (internal (all_init refl)))
            (run_main n 0 n (omega arith)))
          (internal (all_started refl)))
        (internal (context_done refl refl))

  -- For a pod with any number of init containers and main containers there is a run in which main
  -- returns while the started processes of all main containers run and their goroutines still wait for
  -- them: the signal arrives, and is taken, before the first of them is started.
  pub returned-orphans :
      (p : Pause) × (Reachable i n p × ((p.position ≡ returned) × (p.waiting ≡ n)))
  returned-orphans = (armed returned 0 n, (returned_armed, (refl, refl)))
