-- ===== src/Book/Cancel.antt =====
-- OrderBook::cancelOrder and OrderBook::modifyOrder.
pub mod Replace
pub mod Stale
use high_performance_trading.Base.{
  ℕ, ◌+◌, ◌-◌, ◌≤◌, ◌<◌, ◌≡◌, refl, sym, ap, subst, ◌∙◌, ◌≢◌, ◌⊎◌, ◌↔◌, Bool, true, false, Option,
  none, some, List, [], ◌∷◌, ◌++◌, arith, ◌==◌, if◌then◌else◌, All, All-count, count, erase,
  count-erase, Option-cases, inl, inr,
}
use high_performance_trading.Base.Assoc.{find, erase_key, find-erase_key}
use high_performance_trading.Base.SortedMap.{KeyOrder}
use high_performance_trading.Core.Types.{
  OrderId, Price, Symbol, Side, buy, sell, is_buy, Side-cases,
}
use high_performance_trading.Core.Order.{cancel}
use high_performance_trading.Store.{Ref, Store, Terms, terms, modify, terms-cancel}
use high_performance_trading.Book.{
  OrderBook, bid_order, ask_order, remove_from_side, remove_from_bid_side, remove_from_ask_side,
  drop_order, cancel_order,
}
use high_performance_trading.Book.Side.{queue}
use high_performance_trading.Book.Side.Remove.{IsOnly, remove_from_side_lem}
use high_performance_trading.Book.Invariant.{listed, IsBook, AreLevels-count}

-- A book that has lost an order: both queues without it, in the order that they had, and the order
-- map without its ID.
pub record Loses (t : Ref → Terms) (next : Ref) (id : OrderId) (r : Ref) (b b' : OrderBook)
    : Type 0 where
  pub valid : IsBook t next b'
  pub bids : queue b'.bids ≡ erase r (queue b.bids)
  pub asks : queue b'.asks ≡ erase r (queue b.asks)
  pub mapped : b'.order_map ≡ erase_key id b.order_map
  pub symbol : b'.symbol ≡ b.symbol

module _ (t : Ref → Terms) (id : OrderId) (r : Ref) (m : List (OrderId × Ref))
    (found : find id m ≡ some r) (own : (t r).id ≡ id) where
  -- What stands in a queue and has the ID is the order that the map lists under it.
  listed_only : (x : Ref) → 0 < listed t m x → ((t x).id ≡ id) ↔ (x ≡ r)
  unfolding listed
  listed_only x h = (λ e. ground (arith, found, e), λ e. rw e own)

  listed_once : listed t m r ≡ 1
  unfolding listed
  listed_once = ground (arith, found, own)

  -- The order map and the queues stay in step when both lose the order.
  listed-erase_key :
      (x : Ref) → listed t (erase_key id m) x ≡ listed t m x - (if r == x then 1 else 0)
  unfolding listed
  listed-erase_key x = ground (arith, found, own, find-erase_key id (t x).id m)

erase_absent : (r : Ref) (xs : List Ref) → count r xs ≡ 0 → erase r xs ≡ xs
erase_absent r [] h = refl
erase_absent r (x ∷ xs) h = ground (arith, erase_absent r xs)

module _ (s : Store) (next : Ref) (r : Ref) (b : OrderBook) (v : IsBook (terms s) next b)
    (found : find (s.cell r).id b.order_map ≡ some r) where
  queue-IsOnly :
      (xs : List Ref)
      → ((x : Ref) → count x xs ≤ listed (terms s) b.order_map x)
      → IsOnly (terms s) (s.cell r).id r xs
  queue-IsOnly xs le =
      All-count xs (λ x h.
        listed_only (terms s) (s.cell r).id r b.order_map found refl x (omega (arith, le x)))

  once : count r (queue b.bids) + count r (queue b.asks) ≡ 1
  once = omega (arith, v.indexed r, listed_once (terms s) (s.cell r).id r b.order_map found refl)

  indexed-erase :
      (bids asks : List Ref)
      → ((x : Ref)
          → count x bids + count x asks
            ≡ count x (queue b.bids) + count x (queue b.asks) - (if r == x then 1 else 0))
      → (x : Ref)
      → count x bids + count x asks ≡ listed (terms s) (erase_key (s.cell r).id b.order_map) x
  indexed-erase bids asks less x = omega (
    arith,
    less x,
    v.indexed x,
    listed-erase_key (terms s) (s.cell r).id r b.order_map found refl x,
  )

  keyed-erase :
      (id : OrderId) (x : Ref)
      → find id (erase_key (s.cell r).id b.order_map) ≡ some x
      → ((s.cell x).id ≡ id) × (x < next)
  keyed-erase id x e = ground (arith, v.keyed id x, find-erase_key (s.cell r).id id b.order_map)

  drop_order_buy :
      (s.cell r).side ≡ buy
      → Loses (terms s) next (s.cell r).id r b (drop_order (s.cell r).id r s b)
  unfolding drop_order remove_from_bid_side
  drop_order_buy side =
      let none_asked : count r (queue b.asks) ≡ 0 =
        AreLevels-count (terms s) next sell b.symbol r b.asks v.ask_side.levels
          (inl (λ e. cc (side, e))) in
      let (valid, queued) =
        remove_from_side_lem bid_order s r next buy b.symbol b.bids v.bid_side
          (queue-IsOnly (queue b.bids) (λ x. omega (arith, v.indexed x))) in
      rw side (record {
        valid = record {
          bid_side = valid;
          ask_side = v.ask_side;
          indexed =
              indexed-erase _ _
                (λ x. ground (arith, ap (count x) queued, count-erase r x (queue b.bids), once));
          keyed = keyed-erase;
        };
        bids = queued;
        asks = sym (erase_absent r (queue b.asks) none_asked);
        mapped = refl;
        symbol = refl;
      })

  drop_order_sell :
      (s.cell r).side ≡ sell
      → Loses (terms s) next (s.cell r).id r b (drop_order (s.cell r).id r s b)
  unfolding drop_order remove_from_ask_side
  drop_order_sell side =
      let none_bid : count r (queue b.bids) ≡ 0 =
        AreLevels-count (terms s) next buy b.symbol r b.bids v.bid_side.levels
          (inl (λ e. cc (side, e))) in
      let (valid, queued) =
        remove_from_side_lem ask_order s r next sell b.symbol b.asks v.ask_side
          (queue-IsOnly (queue b.asks) (λ x. omega (arith, v.indexed x))) in
      rw side (record {
        valid = record {
          bid_side = v.bid_side;
          ask_side = valid;
          indexed =
              indexed-erase _ _
                (λ x. ground (arith, ap (count x) queued, count-erase r x (queue b.asks), once));
          keyed = keyed-erase;
        };
        bids = sym (erase_absent r (queue b.bids) none_bid);
        asks = queued;
        mapped = refl;
        symbol = refl;
      })

  drop_order-Loses : Loses (terms s) next (s.cell r).id r b (drop_order (s.cell r).id r s b)
  drop_order-Loses = elim (Side-cases (s.cell r).side) [
    | inl e ↦ drop_order_buy e
    | inr e ↦ drop_order_sell e
  ]

module _ (s : Store) (b : OrderBook) (id : OrderId) (v : IsBook (terms s) s.next b) where
  -- A cancel of an order that a well-formed book knows returns true, marks it cancelled with
  -- nothing left, changes no other order, takes it alone out of its queue and the order map, and
  -- keeps the book well formed.
  pub cancel_order_lem :
      (r : Ref)
      → find id b.order_map ≡ some r
      → (b' : OrderBook) × (cancel_order id s b ≡ (modify s r cancel, b', true))
        × Loses (terms s) s.next id r b b'
  unfolding cancel_order
  cancel_order_lem r found =
      let s' = modify s r cancel in
      let same = terms-cancel s r in
      let own : (s'.cell r).id ≡ id =
        ap (λ (t : Ref → Terms). (t r).id) same ∙ (v.keyed id r found).0 in
      (
        drop_order id r s' b,
        rw (found, cancel_order),
        subst (λ t. Loses t s.next id r b (drop_order id r s' b)) same
            (subst (λ i. Loses (terms s') s.next i r b (drop_order i r s' b)) own
              (drop_order-Loses s' s.next r b (rw same v)
                (subst (λ i. find i b.order_map ≡ some r) (sym own) found))),
      )

  -- A cancel of an order that the book does not know returns false and changes nothing.
  pub cancel_order_unknown : find id b.order_map ≡ none → cancel_order id s b ≡ (s, b, false)
  unfolding cancel_order
  cancel_order_unknown absent = rw (absent, cancel_order)
