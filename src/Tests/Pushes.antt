-- ===== src/Tests/Pushes.antt =====
-- The queue with many producers at a concrete interleaving.
use high_performance_trading.Base.{ℕ, ◌≡◌, refl, List, [], ◌∷◌, ◌++◌, true}
use high_performance_trading.MpscQueue.{
  Turn, exchange, link, pop, begin_world, make_links, exchange_tail, store_link, try_pop, is_empty,
  take_turn, take_turns,
}
use high_performance_trading.MpscQueue.Order.{take_turns_pop_in_order, is_empty_means_popped}

-- Two producers exchange the tail, the second one links first, and the consumer waits for the first.
abbrev turns : List (Turn ℕ)
turns = exchange 5 ∷ exchange 6 ∷ link 1 ∷ pop ∷ link 0 ∷ pop ∷ pop ∷ []

all_popped : (take_turns turns (begin_world 0)).popped ≡ 5 ∷ 6 ∷ []
unfolding take_turns take_turn begin_world make_links exchange_tail store_link try_pop
all_popped = refl

none_pending : (take_turns turns (begin_world 0)).pending ≡ []
unfolding take_turns take_turn begin_world make_links exchange_tail store_link try_pop
none_pending = refl

empty : is_empty (take_turns turns (begin_world 0)).links ≡ true
unfolding take_turns take_turn begin_world make_links exchange_tail store_link try_pop is_empty
empty = refl

take_turns_pop_in_order_example :
    (waiting : List ℕ) × ((take_turns turns (begin_world 0)).exchanged
      ≡ (take_turns turns (begin_world 0)).popped ++ waiting)
take_turns_pop_in_order_example = take_turns_pop_in_order 0 turns

is_empty_means_popped_example :
    (take_turns turns (begin_world 0)).exchanged ≡ (take_turns turns (begin_world 0)).popped
is_empty_means_popped_example = is_empty_means_popped 0 turns none_pending empty
