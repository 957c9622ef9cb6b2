-- ===== src/Tests/Queues.antt =====
-- The single-producer ring at concrete inputs.
use high_performance_trading.Base.{
  ℕ, ◌≡◌, refl, ◌<◌, true, false, List, [], ◌∷◌, ◌++◌, length, some, arith, ltb, if◌then◌else◌,
}
use high_performance_trading.SpscQueue.{Queue, make_queue, try_push, try_pop, is_full, is_empty}
use high_performance_trading.SpscQueue.Contents.{Contains, try_push_lem, try_pop_lem}
use high_performance_trading.SpscQueue.Threads.{
  Turn, produce, consume, begin, step, step_producer, step_consumer, run,
}
use high_performance_trading.SpscQueue.Threads.Fifo.{run_pops_in_order}

-- A ring of four slots that has wrapped: 7 in the last slot and 8 in the first.
abbrev ring : Queue ℕ
ring = record { head = 3; tail = 1; buffer = λ i. if ltb i 1 then 8 else 7 }

ring-Contains : Contains 4 ring (7 ∷ 8 ∷ [])
ring-Contains = record {
  bound = omega arith;
  head_bound = omega arith;
  tail_at = refl;
  holds = (refl, (refl, tt));
}

try_push_lem_example :
    ((try_push 4 9 ring).1 ≡ true) × Contains 4 (try_push 4 9 ring).0 (7 ∷ 8 ∷ 9 ∷ [])
try_push_lem_example = try_push_lem 4 ring 9 (7 ∷ 8 ∷ []) ring-Contains

try_pop_lem_example : ((try_pop 4 ring).1 ≡ some 7) × Contains 4 (try_pop 4 ring).0 (8 ∷ [])
try_pop_lem_example = try_pop_lem 4 ring (7 ∷ 8 ∷ []) ring-Contains

-- The consumer finds nothing, meets a push in progress, and then takes its item.
abbrev turns : List (Turn ℕ)
turns =
    consume
    ∷ produce 5
    ∷ consume
    ∷ produce 5
    ∷ produce 5
    ∷ consume
    ∷ produce 6
    ∷ consume
    ∷ consume
    ∷ []

five_popped : (run 2 turns (begin (λ i. 0))).popped ≡ 5 ∷ []
unfolding run step step_producer step_consumer begin make_queue
five_popped = refl

run_pops_in_order_example :
    (waiting : List ℕ) × ((run 2 turns (begin (λ i. 0))).pushed
      ≡ (run 2 turns (begin (λ i. 0))).popped ++ waiting)
    × (length waiting < 2)
run_pops_in_order_example = run_pops_in_order 2 (λ i. 0) turns (omega arith)

ring_open : is_full 4 ring ≡ false
unfolding is_full
ring_open = refl

ring_filled : is_empty ring ≡ false
unfolding is_empty
ring_filled = refl
