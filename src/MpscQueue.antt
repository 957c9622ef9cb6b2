-- ===== src/MpscQueue.antt =====
-- include/utils/lockfree_queue.hpp: the class template MPSCQueue. A push is two steps, the exchange
-- of the tail and the later store of the link, and any number of threads may stand between the two.
-- The steps come in any order, each seeing all earlier ones.
pub mod Pending
pub mod Order
use high_performance_trading.Base.{
  ℕ, zero, suc, ◌+◌, Option, none, some, List, [], ◌∷◌, ◌++◌, ◌==◌, if◌then◌else◌, Bool, true,
  false,
}

-- The nodes are numbered as they are made by `new`.
pub record Links (T : Type 0) : Type 0 where
  pub head : ℕ
  pub tail : ℕ
  pub next : ℕ → Option ℕ
  pub data_of : ℕ → T
  pub fresh : ℕ

-- The queue, the producers that have exchanged the tail but not stored their link, each with
-- `prevTail` and `newNode`, the items in the order of the exchanges, and the popped ones.
pub record World (T : Type 0) : Type 0 where
  pub links : Links T
  pub pending : List (ℕ × ℕ)
  pub exchanged : List T
  pub popped : List T

-- A producer begins `pushNode`, the producer at a place of the pending list goes on, or the consumer
-- calls `tryPop`.
pub data Turn (T : Type 0) : Type 0 where
  exchange : T → Turn T
  link : ℕ → Turn T
  pop : Turn T

abbrev pub set_at {ℓ} : {A : Type ℓ} → ℕ → A → (ℕ → A) → ℕ → A
set_at k a f n = if k == n then a else f n

-- `prevTail->next.store(newNode)` of the pending push at a place.
unfoldable pub store_link : ℕ → List (ℕ × ℕ) → (ℕ → Option ℕ) → List (ℕ × ℕ) × (ℕ → Option ℕ)
store_link i [] next = ([], next)
store_link zero ((prev, node) ∷ pending) next = (pending, set_at prev (some node) next)
store_link (suc i) (push ∷ pending) next =
    let (rest, next') = store_link i pending next in (push ∷ rest, next')

module _ {T : Type 0} where
  -- A dummy node, with a default item.
  unfoldable pub make_links : T → Links T
  make_links item = record { head = 0; tail = 0; next = λ n. none; data_of = λ n. item; fresh = 1 }

  unfoldable pub begin_world : T → World T
  begin_world item = record { links = make_links item; pending = []; exchanged = []; popped = [] }

  unfoldable pub exchange_tail : T → World T → World T
  exchange_tail item w =
      let q = w.links in
      record w {
        links = record q {
          tail = q.fresh;
          next = set_at q.fresh none q.next;
          data_of = set_at q.fresh item q.data_of;
          fresh = suc q.fresh;
        };
        pending = w.pending ++ ((q.tail, q.fresh) ∷ []);
        exchanged = w.exchanged ++ (item ∷ []);
      }

  unfoldable pub try_pop : Links T → Links T × Option T
  try_pop q = elim (q.next q.head) [
    | none ↦ (q, none)
    | some node ↦ (record q { head = node }, some (q.data_of node))
  ]

  unfoldable pub is_empty : Links T → Bool
  is_empty q = elim (q.next q.head) [ none ↦ true | some node ↦ false ]

  abbrev pub log_pop : Option T → List T → List T
  log_pop none popped = popped
  log_pop (some item) popped = popped ++ (item ∷ [])

  unfoldable pub take_turn : Turn T → World T → World T
  take_turn (exchange item) w = exchange_tail item w
  take_turn (link i) w =
      let (pending, next) = store_link i w.pending w.links.next in
      record w { links = record w.links { next = next }; pending = pending }
  take_turn pop w =
      let (q, item) = try_pop w.links in record w { links = q; popped = log_pop item w.popped }

  unfoldable pub take_turns : List (Turn T) → World T → World T
  take_turns [] w = w
  take_turns (turn ∷ turns) w = take_turns turns (take_turn turn w)
