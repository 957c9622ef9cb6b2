-- ===== src/Book/Cancel/Replace.antt =====
-- OrderBook::modifyOrder.
use high_performance_trading.Base.{
  suc, ◌<◌, ◌≡◌, sym, ap, ◌∙◌, true, none, some, List, arith, if◌then◌else◌, erase,
}
use high_performance_trading.Base.Assoc.{find, erase_key, find-erase_key, assign, find-assign}
use high_performance_trading.Core.Types.{OrderId, Price, Quantity, Timestamp, is_buy, new}
use high_performance_trading.Core.Order.{Order, cancel, make_order}
use high_performance_trading.Store.{Ref, Store, terms, modify, alloc, terms-cancel}
use high_performance_trading.Book.{OrderBook, bid_order, ask_order, replacement, modify_order}
use high_performance_trading.Book.Side.{queue, enqueue}
use high_performance_trading.Book.Invariant.{IsBook, alloc-IsBook, find-symbol}
use high_performance_trading.Book.Add.{Takes, add_order-Takes}
use high_performance_trading.Book.Cancel.{Loses, cancel_order_lem}

module _ (s : Store) (b : OrderBook) (id : OrderId) (price : Price) (quantity : Quantity)
    (now : Timestamp) (r : Ref) where
  -- The store when the old order is cancelled and its replacement exists.
  abbrev pub replaced : Store
  replaced = modify (alloc s (replacement (s.cell r) id price quantity now)) r cancel

  -- What a modification of a known order makes of the book: the replacement, under the same ID and
  -- with the new price and quantity, stands where price and time put a new order; the old order is
  -- gone from the queues and cancelled.
  pub record Replaces (b' : OrderBook) : Type 0 where
    pub valid : IsBook (terms replaced) replaced.next b'
    pub mapped : find id b'.order_map ≡ some s.next
    pub fresh : replaced.cell s.next ≡ record {
      id = id;
      symbol = (s.cell r).symbol;
      side = (s.cell r).side;
      order_type = (s.cell r).order_type;
      price = price;
      quantity = quantity;
      remaining_quantity = quantity;
      status = new;
      timestamp = now;
    }
    pub old : replaced.cell r ≡ cancel (s.cell r)
    pub bids : queue b'.bids ≡ (
        if is_buy (s.cell r).side
        then enqueue bid_order (terms replaced) s.next (erase r (queue b.bids))
        else erase r (queue b.bids))
    pub asks : queue b'.asks ≡ (
        if is_buy (s.cell r).side
        then erase r (queue b.asks)
        else enqueue ask_order (terms replaced) s.next (erase r (queue b.asks)))

  module _ (v : IsBook (terms s) s.next b) (found : find id b.order_map ≡ some r) where
    exists : r < s.next
    exists = (v.keyed id r found).1

    fresh_cell : replaced.cell s.next ≡ replacement (s.cell r) id price quantity now
    fresh_cell = ground (arith, exists)

    old_cell : replaced.cell r ≡ cancel (s.cell r)
    old_cell = ground (arith, exists)

    fresh_symbol :
        (b2 : OrderBook) → b2.symbol ≡ b.symbol → (replaced.cell s.next).symbol ≡ b2.symbol
    unfolding replacement make_order
    fresh_symbol b2 e =
        ap (λ (o : Order). o.symbol) fresh_cell
        ∙ find-symbol (terms s) s.next b id r v found
        ∙ sym e

    fresh_absent :
        (b2 : OrderBook)
        → b2.order_map ≡ erase_key id b.order_map
        → find (replaced.cell s.next).id b2.order_map ≡ none
    unfolding replacement make_order
    fresh_absent b2 e =
        ap (λ (o : Order). find o.id b2.order_map) fresh_cell
        ∙ ground (arith, e, find-erase_key id id b.order_map)

    modified :
        (b2 b' : OrderBook)
        → Loses
            (terms (alloc s (replacement (s.cell r) id price quantity now)))
            (suc s.next)
            id
            r
            b
            b2
        → Takes replaced s.next b2 b'
        → Replaces b'
    unfolding replacement make_order
    modified b2 b' loses takes = record {
      valid = takes.valid;
      mapped =
          ap (find id) takes.mapped
          ∙ ap (λ (o : Order). find id (assign o.id s.next b2.order_map)) fresh_cell
          ∙ ground (arith, find-assign id id s.next b2.order_map);
      fresh = fresh_cell;
      old = old_cell;
      bids =
          takes.bids
          ∙ ap
              (λ (xs : List Ref).
                if is_buy (replaced.cell s.next).side
                then enqueue bid_order (terms replaced) s.next xs
                else xs)
              loses.bids
          ∙ ap
              (λ (o : Order).
                if is_buy o.side
                then enqueue bid_order (terms replaced) s.next (erase r (queue b.bids))
                else erase r (queue b.bids))
              fresh_cell;
      asks =
          takes.asks
          ∙ ap
              (λ (xs : List Ref).
                if is_buy (replaced.cell s.next).side
                then xs
                else enqueue ask_order (terms replaced) s.next xs)
              loses.asks
          ∙ ap
              (λ (o : Order).
                if is_buy o.side
                then erase r (queue b.asks)
                else enqueue ask_order (terms replaced) s.next (erase r (queue b.asks)))
              fresh_cell;
    }

    -- A modification of an order that a well-formed book knows succeeds and is a cancellation
    -- followed by the addition of a replacement, which loses its place in the queue.
    pub modify_order_lem :
        (b' : OrderBook) × (modify_order id price quantity now s b ≡ some (replaced, b', true))
        × Replaces b'
    unfolding modify_order
    modify_order_lem =
        let s1 = alloc s (replacement (s.cell r) id price quantity now) in
        let (b2, cancelled, loses) =
          cancel_order_lem s1 b id
            (alloc-IsBook s (replacement (s.cell r) id price quantity now) b v) r found in
        let same = terms-cancel s1 r in
        let v2 : IsBook (terms replaced) replaced.next b2 = rw same loses.valid in
        let (b', added, takes) =
          add_order-Takes replaced s.next b2 (omega arith) v2 (fresh_symbol b2 loses.symbol)
            (fresh_absent b2 loses.mapped) in
        (b', rw (found, cancelled, added, modify_order), modified b2 b' loses takes)
