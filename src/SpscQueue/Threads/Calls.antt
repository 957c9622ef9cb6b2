-- ===== src/SpscQueue/Threads/Calls.antt =====
-- A call that the other thread does not interrupt, against `tryPush` and `tryPop` as whole calls.
use high_performance_trading.Base.{ℕ, ◌≡◌, false, List, [], ◌∷◌, ◌++◌}
use high_performance_trading.SpscQueue.{Queue, try_push, try_pop, is_full, is_empty}
use high_performance_trading.SpscQueue.Threads.{
  Producer, at_rest, Consumer, resting, produce, consume, step_producer, step_consumer, step, run,
}

module _ {T : Type 0} (size : ℕ) (q : Queue T) (pushed popped : List T) where
  -- Three uninterrupted steps of the producer on a queue that is not full are one successful
  -- tryPush.
  pub run-try_push :
      (c : Consumer T) (item later last : T)
      → is_full size q ≡ false
      → run size
          (produce item ∷ produce later ∷ produce last ∷ [])
          (record { queue = q; producer = at_rest; consumer = c; pushed = pushed; popped = popped })
        ≡ record {
          queue = (try_push size item q).0;
          producer = at_rest;
          consumer = c;
          pushed = pushed ++ (item ∷ []);
          popped = popped;
        }
  unfolding is_full run step step_producer try_push
  run-try_push c item later last open_slot = rw open_slot

  -- Three uninterrupted steps of the consumer on a queue that is not empty are one successful
  -- tryPop.
  pub run-try_pop :
      (p : Producer T)
      → is_empty q ≡ false
      → run size
          (consume ∷ consume ∷ consume ∷ [])
          (record { queue = q; producer = p; consumer = resting; pushed = pushed; popped = popped })
        ≡ record {
          queue = (try_pop size q).0;
          producer = p;
          consumer = resting;
          pushed = pushed;
          popped = popped ++ (q.buffer q.head ∷ []);
        }
  unfolding is_empty run step step_consumer try_pop
  run-try_pop p more = rw more
