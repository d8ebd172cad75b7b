-- ===== src/Queue/Order.antt =====
-- The order of the events in the queue of internal/compute/events/listener.go.
use hpktainer.Base.{
  ◌≤◌, ◌≡◌, ◌∙◌, refl, ap, sym, false, List, [], ◌∷◌, ◌++◌, append_assoc, length, length-append,
  arith,
}
use hpktainer.Events.{Event}
use hpktainer.Queue.{
  Options, Handler, new_event_handler, enqueue, dequeue, shut_down, cancel, Step, push,
  drop_finished, drop_done, take, stop, context, Reachable, start, next,
}

-- Nothing is lost, repeated or reordered, the queue keeps its bound, and no worker has stopped unless
-- the context is done.
pub record Orderly (opts : Options) (h : Handler) : Type 0 where
  pub same_opts : h.opts ≡ opts
  pub in_order : h.entered ≡ h.handled ++ h.queue
  pub within : length h.queue ≤ opts.max_queue_size
  pub all_work : h.context_done ≡ false → h.workers ≡ opts.max_workers
  pub accepting : h.context_done ≡ false → h.finished ≡ false

step-Orderly : {opts : Options} {h k : Handler} → Step h k → Orderly opts h → Orderly opts k
unfolding enqueue dequeue shut_down cancel
step-Orderly {opts} {h} (push e f l) o = record {
  same_opts = o.same_opts;
  in_order =
      ap (λ (x : List Event). x ++ e ∷ []) o.in_order ∙ append_assoc h.handled h.queue (e ∷ []);
  within = omega (
    arith,
    length-append h.queue (e ∷ []),
    l,
    ap (λ (x : Options). x.max_queue_size) o.same_opts,
  );
  all_work = o.all_work;
  accepting = o.accepting;
}
step-Orderly (drop_finished e f) o = o
step-Orderly (drop_done e f d) o = o
step-Orderly {opts} {h} (take e rest w q) o = record {
  same_opts = o.same_opts;
  in_order =
      o.in_order
      ∙ ap (λ (x : List Event). h.handled ++ x) q
      ∙ sym (append_assoc h.handled (e ∷ []) rest);
  within = omega (arith, o.within, ap (λ (x : List Event). length x) q);
  all_work = o.all_work;
  accepting = o.accepting;
}
step-Orderly (stop others w d) o = record {
  same_opts = o.same_opts;
  in_order = o.in_order;
  within = o.within;
  all_work = λ n. absurd (ground (arith, n, d));
  accepting = λ n. absurd (ground (arith, n, d));
}
step-Orderly context o = record {
  same_opts = o.same_opts;
  in_order = o.in_order;
  within = o.within;
  all_work = λ n. absurd (ground (arith, n));
  accepting = λ n. absurd (ground (arith, n));
}

-- Whatever the order of the pushes, of the workers and of the end of the context: the events have left
-- the queue in the order in which they entered it, none is lost or repeated, the queue is within its
-- bound, and while the context is not done every worker runs and the queue accepts events.
pub Reachable-Orderly : {opts : Options} {h : Handler} → Reachable opts h → Orderly opts h
unfolding new_event_handler
Reachable-Orderly start = record {
  same_opts = refl;
  in_order = refl;
  within = omega arith;
  all_work = λ n. refl;
  accepting = λ n. refl;
}
Reachable-Orderly (next r s) = step-Orderly s (Reachable-Orderly r)
