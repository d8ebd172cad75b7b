-- ===== src/Queue.antt =====
-- internal/compute/events/listener.go: the queue between the file watcher and the workers (Push and
-- Listen), as the steps that the goroutines may take in any order.
pub mod Order
pub mod Examples
use hpktainer.Base.{ℕ, suc, ◌<◌, ◌≡◌, Bool, true, false, List, [], ◌∷◌, ◌++◌, length}
use hpktainer.Events.{Event}

-- Options. The queue is a buffered channel, so its size is above 0.
pub record Options : Type 0 where
  pub max_workers : ℕ
  pub max_queue_size : ℕ

-- An EventHandler with the context and the workers of Listen: whether the context is done, how many
-- workers still run, and, as a history, the events that entered the queue and those that left it.
pub record Handler : Type 0 where
  pub opts : Options
  pub queue : List Event
  pub finished : Bool
  pub context_done : Bool
  pub workers : ℕ
  pub entered : List Event
  pub handled : List Event

-- NewEventHandler, and the workers that Listen spawns.
pub new_event_handler : Options → Handler
new_event_handler opts = record {
  opts = opts;
  queue = [];
  finished = false;
  context_done = false;
  workers = opts.max_workers;
  entered = [];
  handled = [];
}

-- `h.Queue <- event`.
pub enqueue : Event → Handler → Handler
enqueue e h = record h { queue = h.queue ++ e ∷ []; entered = h.entered ++ e ∷ [] }

-- `event, ok := <-h.Queue`, and processEvent.
pub dequeue : Event → List Event → Handler → Handler
dequeue e rest h = record h { queue = rest; handled = h.handled ++ e ∷ [] }

-- A worker that shuts down.
pub shut_down : ℕ → Handler → Handler
shut_down others h = record h { finished = true; workers = others }

pub cancel : Handler → Handler
cancel h = record h { context_done = true }

-- What Push and the workers do, each under the conditions of its locks and of its select. A select
-- with several cases that are ready takes any of them; a push waits while the queue is full.
pub data Step : Handler → Handler → Type 0 where
  push :
      {h : Handler} (e : Event)
      → h.finished ≡ false
      → length h.queue < h.opts.max_queue_size
      → Step h (enqueue e h)
  drop_finished : {h : Handler} (e : Event) → h.finished ≡ true → Step h h
  drop_done : {h : Handler} (e : Event) → h.finished ≡ false → h.context_done ≡ true → Step h h
  take :
      {h : Handler} (e : Event) (rest : List Event)
      → 0 < h.workers
      → h.queue ≡ e ∷ rest
      → Step h (dequeue e rest h)
  stop :
      {h : Handler} (others : ℕ)
      → h.workers ≡ suc others
      → h.context_done ≡ true
      → Step h (shut_down others h)
  context : {h : Handler} → Step h (cancel h)

pub data Reachable (opts : Options) : Handler → Type 0 where
  start : Reachable opts (new_event_handler opts)
  next : {h k : Handler} → Reachable opts h → Step h k → Reachable opts k
