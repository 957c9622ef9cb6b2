-- ===== src/SpscQueue/Threads.antt =====
-- `tryPush` by one thread and `tryPop` by another, interleaved. A step ends at each access to what
-- both threads use: the check against the other's index, the access to the buffer, the store of the
-- own index. The steps come in any order, each seeing all earlier ones, which is what the acquire
-- loads and release stores of the two indices give.
pub mod Knowledge
pub mod Fifo
pub mod Calls
use high_performance_trading.Base.{ℕ, List, [], ◌∷◌, ◌++◌, ◌==◌, if◌then◌else◌}
use high_performance_trading.SpscQueue.{Queue, store_item, next, make_queue}

-- Where the producer is: before a call, after the check with `currentTail` and `nextTail`, or after
-- the write.
pub data Producer (T : Type 0) : Type 0 where
  at_rest : Producer T
  checked : ℕ → ℕ → T → Producer T
  written : ℕ → T → Producer T

-- The same of the consumer, with `currentHead` and what was read.
pub data Consumer (T : Type 0) : Type 0 where
  resting : Consumer T
  found : ℕ → Consumer T
  taken : ℕ → T → Consumer T

-- The queue, both threads, and the items of the calls that have returned true.
pub record Threads (T : Type 0) : Type 0 where
  pub queue : Queue T
  pub producer : Producer T
  pub consumer : Consumer T
  pub pushed : List T
  pub popped : List T

-- Who runs next, and what the producer pushes if it begins a call.
pub data Turn (T : Type 0) : Type 0 where
  produce : T → Turn T
  consume : Turn T

module _ {T : Type 0} where
  unfoldable pub begin : (ℕ → T) → Threads T
  begin buffer = record {
    queue = make_queue buffer;
    producer = at_rest;
    consumer = resting;
    pushed = [];
    popped = [];
  }

  unfoldable pub step_producer : ℕ → T → Producer T → Threads T → Threads T
  step_producer size item at_rest s =
      let q = s.queue in
      if next size q.tail == q.head
      then s
      else record s { producer = checked q.tail (next size q.tail) item }
  step_producer size item (checked current after own) s =
      let q = s.queue in
      record s {
        queue = record q { buffer = store_item current own q.buffer };
        producer = written after own;
      }
  step_producer size item (written after own) s =
      let q = s.queue in
      record s {
        queue = record q { tail = after };
        producer = at_rest;
        pushed = s.pushed ++ (own ∷ []);
      }

  unfoldable pub step_consumer : ℕ → Consumer T → Threads T → Threads T
  step_consumer size resting s =
      let q = s.queue in if q.head == q.tail then s else record s { consumer = found q.head }
  step_consumer size (found current) s =
      let q = s.queue in record s { consumer = taken current (q.buffer current) }
  step_consumer size (taken current own) s =
      let q = s.queue in
      record s {
        queue = record q { head = next size current };
        consumer = resting;
        popped = s.popped ++ (own ∷ []);
      }

  unfoldable pub step : ℕ → Turn T → Threads T → Threads T
  step size (produce item) s = step_producer size item s.producer s
  step size consume s = step_consumer size s.consumer s

  unfoldable pub run : ℕ → List (Turn T) → Threads T → Threads T
  run size [] s = s
  run size (turn ∷ turns) s = run size turns (step size turn s)
