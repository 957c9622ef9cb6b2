-- ===== src/Engine/Fills/Queues.antt =====
-- The queues of the book after MatchingEngine::submitOrder, with the order book's lookup.
use text.Mathlib.Text.{◌==◌ as str_eq}
use text.Mathlib.TextEquality.{eq_iff}
use high_performance_trading.Base.{
  ℕ, ◌+◌, ◌≡◌, ◌<◌, refl, sym, ap, subst, ◌∙◌, true, false, List, some, none, ◌==◌, count, arith,
  inl, inr, length, if◌then◌else◌, Bool-cases, Option-cases,
}
use high_performance_trading.Base.Assoc.{find}
use high_performance_trading.Core.Double.{Double}
use high_performance_trading.Core.Types.{OrderId, Quantity, Side, buy, sell, limit}
use high_performance_trading.Store.{Ref, Store, Terms, terms, remaining}
use high_performance_trading.Book.{OrderBook, bid_order, ask_order}
use high_performance_trading.Book.Add.{Takes, add_order-Takes}
use high_performance_trading.Book.Side.{queue, enqueue}
use high_performance_trading.Book.Invariant.{IsBook, find_of_count, listed}
use high_performance_trading.Engine.{
  Clock, Engine, Run, start, notify_order, notify_trades, count_limit,
}
use high_performance_trading.Engine.Matching.{
  match_limit_order, match_order, submit_with, rest_order,
}
use high_performance_trading.Engine.Fills.{
  front_order, opposite_queue, own_queue, fills, standing, IsWithin,
}
use high_performance_trading.Engine.Fills.Reference.{Matched}
use high_performance_trading.Engine.Fills.Limit.{limit_loop-Matched}

-- The queue of the order's own side with the order by price and time.
abbrev pub joined : Side → (Ref → Terms) → Ref → List Ref → List Ref
joined buy t r rs = enqueue bid_order t r rs
joined sell t r rs = enqueue ask_order t r rs

-- The orders that the fills use up have left the opposite queue, and the order joins its own queue
-- exactly if something of it is left.
pub record Queued {D : Type 0} (side : Side) (order : Ref) (fs : List (Ref × Quantity)) (s : Store)
    (b : OrderBook) (after : Run D) : Type 0 where
  pub opposite : opposite_queue side after.engine.order_book ≡ standing s fs (opposite_queue side b)
  pub own : own_queue side after.engine.order_book ≡ (
      if remaining after.store order == 0
      then own_queue side b
      else joined side (terms s) order (own_queue side b))

-- A book with no orders but those of another has no ID that the other does not have.
find-within :
    (t : Ref → Terms) (next next' : Ref) (b b' : OrderBook) (id : OrderId)
    → IsBook t next b
    → IsBook t next' b'
    → IsWithin b b'
    → find id b.order_map ≡ none
    → find id b'.order_map ≡ none
unfolding listed
find-within t next next' b b' id v v' within absent = elim (Option-cases (find id b'.order_map)) [
  | inl e ↦ e
  | inr (q, e) ↦
      let named : (t q).id ≡ id = (v'.keyed id q e).0 in
      let there : find (t q).id b'.order_map ≡ some q =
        subst (λ (i : OrderId). find i b'.order_map ≡ some q) (sym named) e in
      let stands : 0 < count q (queue b.bids) + count q (queue b.asks) =
        ground (arith, v'.indexed q, there, within.bids q, within.asks q) in
      let known : find (t q).id b.order_map ≡ some q = find_of_count t next b q v stands in
      absurd (ground (arith, known, absent, named))
]

Takes-queues :
    (side : Side) (s : Store) (r : Ref) (b b' : OrderBook)
    → (s.cell r).side ≡ side
    → Takes s r b b'
    → (opposite_queue side b' ≡ opposite_queue side b)
      × (own_queue side b' ≡ joined side (terms s) r (own_queue side b))
Takes-queues buy s r b b' e takes = ground (arith, e, takes.bids, takes.asks)
Takes-queues sell s r b b' e takes = ground (arith, e, takes.bids, takes.asks)

module _ {D : Type 0} (now : Clock) (side : Side) (order : Ref) (s : Store) (e : Engine D)
    (fs : List (Ref × Quantity)) (run : Run D)
    (m : Matched side order now fs (start order s e) run) where
  rest-Queued :
      (b' : OrderBook)
      → (s.cell order).side ≡ side
      → (remaining run.store order == 0) ≡ false
      → Takes run.store order run.engine.order_book b'
      → Queued side order fs s e.order_book
          (record run { engine = record run.engine { order_book = b' } })
  rest-Queued b' at some_left takes =
      let at_run : (run.store.cell order).side ≡ side =
        subst (λ (t : Ref → Terms). (t order).side ≡ side) (sym m.same_terms) at in
      let (opposite, own) =
        Takes-queues side run.store order run.engine.order_book b' at_run takes in
      record {
        opposite = opposite ∙ m.opposite;
        own = rw some_left (
            own
            ∙ ap (joined side (terms run.store) order) m.own
            ∙ ap (λ (t : Ref → Terms). joined side t order (own_queue side e.order_book))
                m.same_terms);
      }

  module _ (exists : order < s.next) (own_side : (s.cell order).side ≡ side)
      (mine : (s.cell order).symbol ≡ e.order_book.symbol)
      (v : IsBook (terms s) s.next e.order_book)
      (fresh : find (s.cell order).id e.order_book.order_map ≡ none) where
    rest_order-Queued :
        (after : Run D) × (rest_order order (notify_order order run) ≡ some after)
        × Queued side order fs s e.order_book after
    unfolding rest_order
    rest_order-Queued = elim (Bool-cases (remaining run.store order == 0)) [
      | inl spent ↦
          (notify_order order run, rw spent, record { opposite = m.opposite; own = rw spent m.own })
      | inr some_left ↦
          let b = run.engine.order_book in
          let named : (run.store.cell order).symbol ≡ b.symbol =
            ap (λ (t : Ref → Terms). (t order).symbol) m.same_terms ∙ mine ∙ sym m.book_symbol in
          let unknown : find (run.store.cell order).id b.order_map ≡ none =
            find-within (terms run.store) s.next run.store.next e.order_book b
              (run.store.cell order).id
              (subst (λ (t : Ref → Terms). IsBook t s.next e.order_book) (sym m.same_terms) v)
              m.ready.book m.within
              (subst (λ (t : Ref → Terms). find (t order).id e.order_book.order_map ≡ none)
                (sym m.same_terms) fresh) in
          let (b', added, takes) =
            add_order-Takes run.store order b
              (subst (λ (n : Ref). order < n) (sym m.same_next) exists) m.ready.book named
              unknown in
          let done = rest-Queued b' own_side some_left takes in
          let told = notify_order order run in
          (
            record told { engine = record told.engine { order_book = b' } },
            rw (some_left, added),
            record { opposite = done.opposite; own = done.own },
          )
    ]

module _ {D : Type 0} (d : Double D) (now : Clock) (order : Ref) (s : Store) (e : Engine D)
    (fuel : ℕ) (is_limit : (s.cell order).order_type ≡ limit)
    (mine : (s.cell order).symbol ≡ e.symbol) (one : e.order_book.symbol ≡ e.symbol)
    (exists : order < s.next) (v : IsBook (terms s) s.next e.order_book)
    (apart : count order (queue e.order_book.bids) + count order (queue e.order_book.asks) ≡ 0)
    (fresh : find (s.cell order).id e.order_book.order_map ≡ none)
    (enough : length (opposite_queue (s.cell order).side e.order_book) < fuel) where
  -- With the order book's own lookup, a limit order with an unknown ID, of the symbol of the
  -- engine and of its well-formed book, that stands in no queue is submitted with a result, given
  -- fuel above the length of the opposite queue: the orders that its fills use up leave the front
  -- of the opposite queue, whose rest keeps its order, and the order joins the queue of its own
  -- side by price and time exactly if something of it is left.
  pub submit_limit_queues :
      (after : Run D) × (submit_with d front_order fuel now order s e ≡ some after)
      × Queued
          (s.cell order).side
          order
          (fills
            (s.cell order).side
            (s.cell order).price
            s
            (remaining s order)
            (opposite_queue (s.cell order).side e.order_book))
          s
          e.order_book
          after
  unfolding submit_with match_order match_limit_order count_limit
  submit_limit_queues =
      let side = (s.cell order).side in
      let opposite = opposite_queue side e.order_book in
      let (run, loops, m) =
        limit_loop-Matched d now side order (s.cell order).price fuel (start order s e) opposite
          (record { book = v; apart = apart; own = refl }) refl enough in
      let fs = fills side (s.cell order).price s (remaining s order) opposite in
      let (after, rests, done) =
        rest_order-Queued now side order s e fs run m exists refl (mine ∙ sym one) v fresh in
      let same : str_eq (s.cell order).symbol e.symbol ≡ true =
        (eq_iff (s.cell order).symbol e.symbol).1 mine in
      (
        notify_trades (count_limit after),
        rw (same, is_limit, loops, rests, match_order, match_limit_order),
        ground (arith, done.opposite, done.own),
      )
