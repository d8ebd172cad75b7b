-- ===== src/Pause/Lifecycle.antt =====
-- main of cmd/hpk-pause/main.go, from the start of its signal handler on: the main goroutine, the
-- signal handler and the goroutines of the main containers, as steps that are taken in any order.
use hpktainer.Base.{ℕ, zero, suc, ◌≡◌, Bool, true, false}

-- How far the main goroutine is: in prepareContainers, before the init containers, with so many left
-- to run; in one of them; in the loop of handleContainers, with so many containers left to start;
-- at `<-ctx.Done()`; or returned, which ends the process.
pub data Position : Type 0 where
  preparing waiting_for_context : Position
  before_init in_init starting : ℕ → Position
  returned_failed returned : Position

-- The signal handler: in its select, waiting for the containers or for the grace period, waiting for
-- the containers after SIGKILL, or returned.
pub data SignalHandler : Type 0 where
  listening graceful forced finished : SignalHandler

-- A pod has `init_containers` and `containers`. The wait group counts the goroutines of the main
-- containers that are not done: `unstarted` of them have not started a process yet, `waiting` of them
-- are at cmd.Wait() with a process that runs. `unwaited` is the number of processes that run although
-- their goroutine is done, since their id file could not be written. `pending` is the signal in the
-- buffered channel; `all_done` is the closed channel `done`.
pub record Pause : Type 0 where
  pub init_containers : ℕ
  pub containers : ℕ
  pub position : Position
  pub handler : SignalHandler
  pub pending : Bool
  pub all_done : Bool
  pub cancelled : Bool
  pub unstarted : ℕ
  pub waiting : ℕ
  pub unwaited : ℕ

unfoldable pub start_pause : ℕ → ℕ → Pause
start_pause init_containers containers = record {
  init_containers = init_containers;
  containers = containers;
  position = preparing;
  handler = listening;
  pending = false;
  all_done = false;
  cancelled = false;
  unstarted = 0;
  waiting = 0;
  unwaited = 0;
}

unfoldable pub move : Position → Pause → Pause
move position p = record p { position = position }

-- wg.Add(1) and the start of the goroutine.
unfoldable pub start_container : ℕ → Pause → Pause
start_container left p = record p { position = starting left; unstarted = suc p.unstarted }

-- cmd.Start() succeeds, in one of the goroutines.
unfoldable pub start_process : ℕ → Pause → Pause
start_process others p = record p { unstarted = others; waiting = suc p.waiting }

-- executeContainer returns before it has started a process, and wg.Done().
unfoldable pub give_up_start : ℕ → Pause → Pause
give_up_start others p = record p { unstarted = others }

-- The id file cannot be written: executeContainer returns with the process running, and wg.Done().
unfoldable pub give_up_id : ℕ → Pause → Pause
give_up_id others p = record p { waiting = others; unwaited = suc p.unwaited }

-- The process ends, cmd.Wait() returns, and wg.Done().
unfoldable pub container_done : ℕ → Pause → Pause
container_done others p = record p { waiting = others }

-- A process ends that nothing waits for.
unfoldable pub unwaited_done : ℕ → Pause → Pause
unwaited_done others p = record p { unwaited = others }

-- SIGINT or SIGTERM; a second one is dropped while the first is in the channel.
unfoldable pub signal_arrives : Pause → Pause
signal_arrives p = record p { pending = true }

-- The handler takes the signal, and sends SIGTERM to the tracked processes.
unfoldable pub take_signal : Pause → Pause
take_signal p = record p { handler = graceful; pending = false }

-- The grace period is over: SIGKILL to the tracked processes.
unfoldable pub force : Pause → Pause
force p = record p { handler = forced }

-- wg.Wait() returns, and the channel `done` is closed.
unfoldable pub close_done : Pause → Pause
close_done p = record p { all_done = true }

-- `<-done`, cancel(), and the return of the handler.
unfoldable pub cancel_context : Pause → Pause
cancel_context p = record p { handler = finished; cancelled = true }

abbrev pub Alive : Position → Type 0
Alive returned = ⊥
Alive returned_failed = ⊥
Alive _ = Unit

-- The handler waits on `done`.
abbrev pub Awaiting : SignalHandler → Type 0
Awaiting graceful = Unit
Awaiting forced = Unit
Awaiting _ = ⊥

-- The steps end with main. A process may end at any time, on a signal or not, or never.
pub data Internal : Pause → Pause → Type 0 where
  prepared :
      {p : Pause} → p.position ≡ preparing → Internal p (move (before_init p.init_containers) p)
  prepare_fails : {p : Pause} → p.position ≡ preparing → Internal p (move returned_failed p)
  start_init :
      {p : Pause} (left : ℕ)
      → p.position ≡ before_init (suc left)
      → Internal p (move (in_init left) p)
  init_not_started :
      {p : Pause} (left : ℕ)
      → p.position ≡ before_init (suc left)
      → Internal p (move returned_failed p)
  init_ends :
      {p : Pause} (left : ℕ) → p.position ≡ in_init left → Internal p (move (before_init left) p)
  init_fails :
      {p : Pause} (left : ℕ) → p.position ≡ in_init left → Internal p (move returned_failed p)
  all_init :
      {p : Pause} → p.position ≡ before_init zero → Internal p (move (starting p.containers) p)
  start_main :
      {p : Pause} (left : ℕ)
      → p.position ≡ starting (suc left)
      → Internal p (start_container left p)
  all_started : {p : Pause} → p.position ≡ starting zero → Internal p (move waiting_for_context p)
  context_done :
      {p : Pause}
      → p.position ≡ waiting_for_context
      → p.cancelled ≡ true
      → Internal p (move returned p)
  process_starts :
      {p : Pause} (others : ℕ)
      → Alive p.position
      → p.unstarted ≡ suc others
      → Internal p (start_process others p)
  start_fails :
      {p : Pause} (others : ℕ)
      → Alive p.position
      → p.unstarted ≡ suc others
      → Internal p (give_up_start others p)
  id_fails :
      {p : Pause} (others : ℕ)
      → Alive p.position
      → p.waiting ≡ suc others
      → Internal p (give_up_id others p)
  main_ends :
      {p : Pause} (others : ℕ)
      → Alive p.position
      → p.waiting ≡ suc others
      → Internal p (container_done others p)
  unwaited_ends :
      {p : Pause} (others : ℕ)
      → Alive p.position
      → p.unwaited ≡ suc others
      → Internal p (unwaited_done others p)
  taken :
      {p : Pause}
      → Alive p.position
      → p.handler ≡ listening
      → p.pending ≡ true
      → Internal p (take_signal p)
  grace_over : {p : Pause} → Alive p.position → p.handler ≡ graceful → Internal p (force p)
  closed :
      {p : Pause}
      → Alive p.position
      → Awaiting p.handler
      → p.all_done ≡ false
      → p.unstarted ≡ 0
      → p.waiting ≡ 0
      → Internal p (close_done p)
  drained :
      {p : Pause}
      → Alive p.position
      → Awaiting p.handler
      → p.all_done ≡ true
      → Internal p (cancel_context p)

-- With the signals, which come from outside.
pub data Step : Pause → Pause → Type 0 where
  internal : {p q : Pause} → Internal p q → Step p q
  signal : {p : Pause} → Alive p.position → Step p (signal_arrives p)

pub data Steps (p : Pause) : Pause → Type 0 where
  here : Steps p p
  next : {q r : Pause} → Steps p q → Step q r → Steps p r

-- What main reaches for a pod with so many init containers and main containers.
abbrev pub Reachable : ℕ → ℕ → Pause → Type 0
Reachable i c p = Steps (start_pause i c) p
