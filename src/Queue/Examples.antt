-- ===== src/Queue/Examples.antt =====
-- An instance for the queue of internal/compute/events/listener.go.
use hpktainer.Base.{refl, true, false, [], codes, arith}
use hpktainer.Events.{Event}
use hpktainer.Queue.{
  Options, Handler, new_event_handler, enqueue, dequeue, shut_down, cancel, push, take, stop,
  context, Reachable, start, next,
}

abbrev opts : Options
opts = record { max_workers = 2; max_queue_size = 1 }

abbrev event : Event
event = record { name = codes "/h/n/p/controlfiles/a.ip"; has_create = true; has_write = false }

-- An event is pushed and handled, the context ends, and a worker stops.
abbrev last : Handler
last = shut_down 1 (cancel (dequeue event [] (enqueue event (new_event_handler opts))))

reached : Reachable opts last
unfolding new_event_handler enqueue dequeue shut_down cancel
reached =
    next
      (next (next (next start (push event refl (omega arith))) (take event [] (omega arith) refl))
        context)
      (stop 1 refl refl)
