-- ===== src/Pause/Progress.antt =====
-- That main of cmd/hpk-pause/main.go returns after a signal although containers ignore SIGTERM.
use hpktainer.Base.{ℕ, suc, ◌+◌, ◌*◌, ◌≡◌, ◌≢◌, true, if◌then◌else◌, ◌⊎◌}
use hpktainer.Pause.Lifecycle.{
  Position, preparing, waiting_for_context, before_init, in_init, starting, returned_failed,
  returned, SignalHandler, listening, graceful, forced, finished, Pause, Internal, init_ends,
  main_ends, unwaited_ends,
}

abbrev position_rank : ℕ → ℕ → Position → ℕ
position_rank i n preparing = 2 * i + 4 * n + 4
position_rank i n (before_init left) = 2 * left + 4 * n + 3
position_rank i n (in_init left) = 2 * left + 4 * n + 4
position_rank i n (starting left) = 4 * left + 2
position_rank i n waiting_for_context = 1
position_rank i n returned_failed = 0
position_rank i n returned = 0

abbrev handler_rank : SignalHandler → ℕ
handler_rank listening = 3
handler_rank graceful = 2
handler_rank forced = 1
handler_rank finished = 0

-- What is left to do.
abbrev pub measure : Pause → ℕ
measure p =
    position_rank p.init_containers p.containers p.position
    + handler_rank p.handler
    + (if p.all_done then 0 else 1)
    + (3 * p.unstarted + 2 * p.waiting + p.unwaited)

-- A run of so many steps, none of which is the arrival of a signal.
pub data Run (p : Pause) : ℕ → Pause → Type 0 where
  stay : Run p 0 p
  then_ : {k : ℕ} {q r : Pause} → Run p k q → Internal q r → Run p (suc k) r

-- A step that does not need a process to end before SIGKILL was sent.
abbrev pub Stubborn : {p q : Pause} → Internal p q → Type 0
Stubborn {p} (main_ends others a e) = p.handler ≡ forced
Stubborn (unwaited_ends others a e) = ⊥
Stubborn (init_ends left e) = ⊥
Stubborn _ = Unit

-- Some such step is possible.
abbrev pub CanMove : Pause → Type 0
CanMove p = (q : Pause) × ((s : Internal p q) × Stubborn s)

-- The handler has taken the signal, and all main containers were started.
record Signalled (p : Pause) : Type 0 where
  pub place : (p.position ≡ waiting_for_context) ⊎ (p.position ≡ returned)
  pub all_begun : p.unstarted ≡ 0
  pub told : p.handler ≢ listening
  pub ended : p.handler ≡ finished → p.cancelled ≡ true
