-- ===== src/Book/Add.antt =====
-- OrderBook::addOrder.
use text.Mathlib.Text.{◌==◌ as str_eq}
use text.Mathlib.TextEquality.{eq_iff}
use high_performance_trading.Base.{
  ◌+◌, ◌<◌, ◌≡◌, refl, ap, ◌≢◌, ◌↔◌, ◌⊎◌, Bool, true, false, none, some, List, [], ◌∷◌, arith, ◌==◌,
  if◌then◌else◌, count, Option-cases, Bool-cases, inl, inr,
}
use high_performance_trading.Base.Assoc.{find, assign, find-assign}
use high_performance_trading.Base.SortedMap.{KeyOrder}
use high_performance_trading.Core.Types.{OrderId, Price, buy, sell, is_buy, Side-cases}
use high_performance_trading.Store.{Ref, Store, Terms, terms}
use high_performance_trading.Book.{
  OrderBook, bid_order, ask_order, add_to_bid_side, add_to_ask_side, add_new, add_order,
}
use high_performance_trading.Book.Side.{queue, enqueue}
use high_performance_trading.Book.Side.Insert.{insert_level, add_to_side_lem}
use high_performance_trading.Book.Invariant.{listed, IsBook}

pub count-enqueue :
    (o : KeyOrder Price) (t : Ref → Terms) (r x : Ref) (xs : List Ref)
    → count x (enqueue o t r xs) ≡ count x xs + (if r == x then 1 else 0)
unfolding enqueue
count-enqueue o t r x [] = omega arith
count-enqueue o t r x (y ∷ xs) = ground (arith, count-enqueue o t r x xs)

-- A book that has taken a new order: the order stands in the queue of its own side by price and
-- time, the other queue and the symbol are the same, and the order map has gained the order.
pub record Takes (s : Store) (r : Ref) (b b' : OrderBook) : Type 0 where
  pub valid : IsBook (terms s) s.next b'
  pub bids : queue b'.bids ≡ (
      if is_buy (s.cell r).side then enqueue bid_order (terms s) r (queue b.bids) else queue b.bids)
  pub asks : queue b'.asks ≡ (
      if is_buy (s.cell r).side then queue b.asks else enqueue ask_order (terms s) r (queue b.asks))
  pub mapped : b'.order_map ≡ assign (s.cell r).id r b.order_map
  pub symbol : b'.symbol ≡ b.symbol

-- The order map and the queues stay in step when both gain a new order.
indexed-assign :
    (t : Ref → Terms) (r : Ref) (m : List (OrderId × Ref)) (bids asks bids' asks' : List Ref)
    → find (t r).id m ≡ none
    → ((x : Ref) → count x bids + count x asks ≡ listed t m x)
    → ((x : Ref)
        → count x bids' + count x asks' ≡ count x bids + count x asks + (if r == x then 1 else 0))
    → (x : Ref) → count x bids' + count x asks' ≡ listed t (assign (t r).id r m) x
unfolding listed
indexed-assign t r m bids asks bids' asks' absent indexed more x =
    ground (arith, indexed x, more x, find-assign (t r).id (t x).id r m)

keyed-assign :
    (t : Ref → Terms) (next : Ref) (r : Ref) (m : List (OrderId × Ref))
    → r < next
    → ((id : OrderId) (x : Ref) → find id m ≡ some x → ((t x).id ≡ id) × (x < next))
    → (id : OrderId) (x : Ref) → find id (assign (t r).id r m) ≡ some x
    → ((t x).id ≡ id) × (x < next)
keyed-assign t next r m exists keyed id x e =
    ground (arith, keyed id x, find-assign (t r).id id r m)

module _ (s : Store) (r : Ref) (b : OrderBook) (exists : r < s.next)
    (v : IsBook (terms s) s.next b) where
  module _ (mine : (s.cell r).symbol ≡ b.symbol)
      (absent : find (s.cell r).id b.order_map ≡ none) where
    abbrev after_buy : OrderBook
    after_buy = record b {
      bids = insert_level bid_order s r b.bids;
      order_map = assign (s.cell r).id r b.order_map;
    }

    abbrev after_sell : OrderBook
    after_sell = record b {
      asks = insert_level ask_order s r b.asks;
      order_map = assign (s.cell r).id r b.order_map;
    }

    add_buy :
        (s.cell r).side ≡ buy → (add_order s r b ≡ some (after_buy, true)) × Takes s r b after_buy
    unfolding add_order add_new add_to_bid_side
    add_buy side =
        let (added, valid, queued) =
          add_to_side_lem bid_order s r s.next buy b.symbol b.bids v.bid_side
            (exists, refl, side, mine) in
        (
          rw ((eq_iff (s.cell r).symbol b.symbol).1 mine, absent, side, added),
          record {
            valid = record {
              bid_side = valid;
              ask_side = v.ask_side;
              indexed = indexed-assign (terms s) r b.order_map _ _ _ _ absent v.indexed (λ x.
                  omega (
                    arith,
                    ap (count x) queued,
                    count-enqueue bid_order (terms s) r x (queue b.bids),
                  ));
              keyed = keyed-assign (terms s) s.next r b.order_map exists v.keyed;
            };
            bids = rw side queued;
            asks = rw side;
            mapped = refl;
            symbol = refl;
          },
        )

    add_sell :
        (s.cell r).side ≡ sell
        → (add_order s r b ≡ some (after_sell, true)) × Takes s r b after_sell
    unfolding add_order add_new add_to_ask_side
    add_sell side =
        let (added, valid, queued) =
          add_to_side_lem ask_order s r s.next sell b.symbol b.asks v.ask_side
            (exists, refl, side, mine) in
        (
          rw ((eq_iff (s.cell r).symbol b.symbol).1 mine, absent, side, added),
          record {
            valid = record {
              bid_side = v.bid_side;
              ask_side = valid;
              indexed = indexed-assign (terms s) r b.order_map _ _ _ _ absent v.indexed (λ x.
                  omega (
                    arith,
                    ap (count x) queued,
                    count-enqueue ask_order (terms s) r x (queue b.asks),
                  ));
              keyed = keyed-assign (terms s) s.next r b.order_map exists v.keyed;
            };
            bids = rw side;
            asks = rw side queued;
            mapped = refl;
            symbol = refl;
          },
        )

    -- A well-formed book takes an order of its symbol with an unknown ID: the order queues by
    -- price and time on its own side, the order map gains it, and the book stays well formed.
    pub add_order-Takes : (b' : OrderBook) × (add_order s r b ≡ some (b', true)) × Takes s r b b'
    add_order-Takes = elim (Side-cases (s.cell r).side) [
      | inl e ↦ let (added, takes) = add_buy e in (after_buy, added, takes)
      | inr e ↦ let (added, takes) = add_sell e in (after_sell, added, takes)
    ]

  -- An add of an order to a well-formed book returns false, with the book unchanged, exactly for
  -- another symbol or a known ID.
  pub add_order_refuses :
      (((s.cell r).symbol ≢ b.symbol) ⊎ ((q : Ref) × (find (s.cell r).id b.order_map ≡ some q)))
      ↔ (add_order s r b ≡ some (b, false))
  add_order_refuses = (refused, why)
    where
      known :
          (q : Ref) → find (s.cell r).id b.order_map ≡ some q → add_order s r b ≡ some (b, false)
      known q e = unfold add_order in ground (arith, e)

      refused :
          ((s.cell r).symbol ≢ b.symbol) ⊎ ((q : Ref) × (find (s.cell r).id b.order_map ≡ some q))
          → add_order s r b ≡ some (b, false)
      refused (inl h) = unfold add_order in ground (arith, eq_iff (s.cell r).symbol b.symbol)
      refused (inr (q, e)) = known q e

      why :
          add_order s r b ≡ some (b, false)
          → ((s.cell r).symbol ≢ b.symbol) ⊎ ((q : Ref) × (find (s.cell r).id b.order_map ≡ some q))
      why e = elim (Option-cases (find (s.cell r).id b.order_map)) [
        | inr known ↦ inr known
        | inl absent ↦
            inl (λ mine. let (b', taken, _) = add_order-Takes mine absent in cc (e, taken))
      ]

  -- On a well-formed book an add never throws, and leaves a well-formed book of the same symbol:
  -- the book as it was or one that has taken the order.
  pub add_order_total :
      (b' : OrderBook) × (done : Bool) × (add_order s r b ≡ some (b', done))
      × IsBook (terms s) s.next b'
      × (b'.symbol ≡ b.symbol)
      × ((b' ≡ b) ⊎ Takes s r b b')
  add_order_total = elim (Option-cases (find (s.cell r).id b.order_map)) [
    | inr known ↦ (b, false, add_order_refuses.0 (inr known), v, refl, inl refl)
    | inl absent ↦ elim (Bool-cases (str_eq (s.cell r).symbol b.symbol)) [
      | inr e ↦ (
        b,
        false,
        add_order_refuses.0 (inl (λ mine. ground (arith, e, eq_iff (s.cell r).symbol b.symbol))),
        v,
        refl,
        inl refl,
      )
      | inl e ↦
          let (b', added, takes) =
            add_order-Takes ((eq_iff (s.cell r).symbol b.symbol).0 e) absent in
          (b', true, added, takes.valid, takes.symbol, inr takes)
    ]
  ]
