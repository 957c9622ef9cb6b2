-- ===== src/Engine/Fills/Step.antt =====
-- One round of a matching loop, with the front order of the opposite side.
use high_performance_trading.Base.{
  ℕ, length, ◌+◌, ◌-◌, ◌≡◌, ◌<◌, ◌≤◌, refl, sym, ap, subst, ◌∙◌, ◌≢◌, Bool, List, [], ◌∷◌, some,
  ◌==◌, if◌then◌else◌, min, count, erase, count-erase, erase-absent, arith, ltb, ◌++◌,
}
use high_performance_trading.Base.Assoc.{find}
use high_performance_trading.Core.Double.{Double}
use high_performance_trading.Core.Types.{Price, Side, buy, sell}
use high_performance_trading.Core.Order.{Order, fill_quantity}
use high_performance_trading.Store.{Ref, Store, Terms, terms, remaining, modify, terms-fill}
use high_performance_trading.Book.{OrderBook}
use high_performance_trading.Book.Side.{queue}
use high_performance_trading.Book.Invariant.{IsBook, find_of_count, listed}
use high_performance_trading.Engine.{Clock, Run, execute, settle, trade_of}
use high_performance_trading.Engine.Fills.{opposite_queue, own_queue, IsReady, IsWithin}
use high_performance_trading.Engine.Fills.Settle.{Settled, settle-Settled}

-- The front of the opposite queue stands in the book.
front_stands :
    (side : Side) (b : OrderBook) (r : Ref) (rs : List Ref)
    → opposite_queue side b ≡ r ∷ rs
    → 0 < count r (queue b.bids) + count r (queue b.asks)
front_stands buy b r rs e = ground arith
front_stands sell b r rs e = ground arith

-- What a round does to the run: the fill goes to both orders and into the trades, the front order
-- leaves the queue exactly if it is exhausted, and all else stays.
pub record Stepped {D : Type 0} (now : Clock) (side : Side) (order : Ref) (price : Price) (r : Ref)
    (rs : List Ref) (run after : Run D) : Type 0 where
  pub ready : IsReady order after
  pub same_terms : terms after.store ≡ terms run.store
  pub same_next : after.store.next ≡ run.store.next
  pub left : after.left ≡ run.left - min run.left (remaining run.store r)
  pub opposite :
      opposite_queue side after.engine.order_book
      ≡ (if ltb run.left (remaining run.store r) then r ∷ rs else rs)
  pub taken : remaining after.store r + min run.left (remaining run.store r) ≡ remaining run.store r
  pub others : (x : Ref) → x ≢ r → x ≢ order → after.store.cell x ≡ run.store.cell x
  pub trades :
      after.trades
      ≡ run.trades
        ++ (trade_of side
              (run.store.cell order).id
              (run.store.cell r).id
              run.engine.symbol
              price
              (min run.left (remaining run.store r))
              (now (length run.trades))
            ∷ [])
  pub symbol : after.engine.symbol ≡ run.engine.symbol
  pub within : IsWithin run.engine.order_book after.engine.order_book
  pub own : own_queue side after.engine.order_book ≡ own_queue side run.engine.order_book
  pub book_symbol : after.engine.order_book.symbol ≡ run.engine.order_book.symbol

opposite_erase :
    (side : Side) (b b' : OrderBook) (r : Ref) (rs : List Ref) (spent : Bool)
    → opposite_queue side b ≡ r ∷ rs
    → queue b'.bids ≡ (if spent then erase r (queue b.bids) else queue b.bids)
    → queue b'.asks ≡ (if spent then erase r (queue b.asks) else queue b.asks)
    → opposite_queue side b' ≡ (if spent then rs else r ∷ rs)
opposite_erase buy b b' r rs spent e eb ea = ground (arith, ap (erase r) e)
opposite_erase sell b b' r rs spent e eb ea = ground (arith, ap (erase r) e)

-- No order stands twice in a book.
stands_once :
    (t : Ref → Terms) (next : Ref) (b : OrderBook) (x : Ref)
    → IsBook t next b
    → count x (queue b.bids) + count x (queue b.asks) ≤ 1
unfolding listed
stands_once t next b x v = ground (arith, v.indexed x)

own_erase :
    (side : Side) (b b' : OrderBook) (r : Ref) (rs : List Ref) (spent : Bool)
    → opposite_queue side b ≡ r ∷ rs
    → count r (queue b.bids) + count r (queue b.asks) ≤ 1
    → queue b'.bids ≡ (if spent then erase r (queue b.bids) else queue b.bids)
    → queue b'.asks ≡ (if spent then erase r (queue b.asks) else queue b.asks)
    → own_queue side b' ≡ own_queue side b
own_erase buy b b' r rs spent e once eb ea =
    ground (arith, ap (count r) e, erase-absent r (queue b.bids))
own_erase sell b b' r rs spent e once eb ea =
    ground (arith, ap (count r) e, erase-absent r (queue b.asks))

-- An order that stands in no queue stands in none after an erasure.
apart_erase :
    (order r : Ref) (b b' : OrderBook) (spent : Bool)
    → count order (queue b.bids) + count order (queue b.asks) ≡ 0
    → queue b'.bids ≡ (if spent then erase r (queue b.bids) else queue b.bids)
    → queue b'.asks ≡ (if spent then erase r (queue b.asks) else queue b.asks)
    → count order (queue b'.bids) + count order (queue b'.asks) ≡ 0
apart_erase order r b b' spent h eb ea = ground (
  arith,
  ap (count order) eb,
  ap (count order) ea,
  count-erase r order (queue b.bids),
  count-erase r order (queue b.asks),
)

-- A queue with or without an order.
erase-fewer :
    (r x : Ref) (spent : Bool) (xs ys : List Ref)
    → ys ≡ (if spent then erase r xs else xs)
    → count x ys ≤ count x xs
erase-fewer r x spent xs ys e = ground (arith, count-erase r x xs, ap (count x) e)

module _ {D : Type 0} (d : Double D) (now : Clock) (side : Side) (order : Ref) (price : Price) where
  module _ (run : Run D) (ready : IsReady order run) (r : Ref) (rs : List Ref)
      (front : opposite_queue side run.engine.order_book ≡ r ∷ rs) where
    -- The store when both orders have been filled.
    abbrev filled_store : Store
    filled_store =
        let qty = min run.left (remaining run.store r) in
        modify (modify run.store order (fill_quantity qty)) r (fill_quantity qty)

    filled-terms : terms filled_store ≡ terms run.store
    filled-terms =
        let qty = min run.left (remaining run.store r) in
        terms-fill (modify run.store order (fill_quantity qty)) r qty
        ∙ terms-fill run.store order qty

    found : find (filled_store.cell r).id run.engine.order_book.order_map ≡ some r
    found =
        subst (λ (t : Ref → Terms). find (t r).id run.engine.order_book.order_map ≡ some r)
          (sym filled-terms)
          (find_of_count (terms run.store) run.store.next run.engine.order_book r ready.book
            (front_stands side run.engine.order_book r rs front))

    filled-IsBook : IsBook (terms filled_store) filled_store.next run.engine.order_book
    filled-IsBook = rw filled-terms ready.book

    settled :
        Settled r filled_store run.engine.order_book
          (settle r filled_store run.engine.order_book).0
          (settle r filled_store run.engine.order_book).1
    settled = settle-Settled r filled_store run.engine.order_book filled-IsBook found

    apart_from : r ≢ order
    apart_from e =
        let there = front_stands side run.engine.order_book r rs front in
        omega (
          arith,
          subst
              (λ (x : Ref).
                0
                < count x (queue run.engine.order_book.bids)
                  + count x (queue run.engine.order_book.asks))
              e there,
          ready.apart,
        )

    -- What the resting order and the incoming one have left after the fill.
    filled_left :
        (remaining filled_store r + min run.left (remaining run.store r) ≡ remaining run.store r)
        × (remaining filled_store order + min run.left (remaining run.store r) ≡ run.left)
    unfolding fill_quantity
    filled_left = ground (arith, ready.own, apart_from)

    filled_others : (x : Ref) → x ≢ r → x ≢ order → filled_store.cell x ≡ run.store.cell x
    filled_others x ne ne' = ground arith

    spent_iff :
        (if remaining filled_store r == 0 then rs else r ∷ rs)
        ≡ (if ltb run.left (remaining run.store r) then r ∷ rs else rs)
    spent_iff = exhausted (remaining filled_store r) run.left (remaining run.store r) filled_left.0
      where
        exhausted :
            (after left has : ℕ)
            → after + min left has ≡ has
            → (if after == 0 then rs else r ∷ rs) ≡ (if ltb left has then r ∷ rs else rs)
        exhausted after left has e = ground arith

    pub execute-Stepped :
        Stepped now side order price r rs run (execute d side order r price now run)
    unfolding execute
    execute-Stepped = record {
      ready = record {
        book = settled.valid;
        apart =
            apart_erase order r run.engine.order_book
              (settle r filled_store run.engine.order_book).1 (remaining filled_store r == 0)
              ready.apart settled.bids settled.asks;
        own =
            ap (λ (o : Order). o.remaining_quantity)
              (settled.others order (λ e. apart_from (sym e)))
            ∙ omega (arith, filled_left.1);
      };
      same_terms = settled.same_terms ∙ filled-terms;
      same_next = settled.same_next;
      left = refl;
      opposite =
          opposite_erase side run.engine.order_book (settle r filled_store run.engine.order_book).1
            r rs (remaining filled_store r == 0) front settled.bids settled.asks
          ∙ spent_iff;
      taken = omega (arith, settled.same_left, filled_left.0);
      others = λ x ne ne'. settled.others x ne ∙ filled_others x ne ne';
      trades = refl;
      symbol = refl;
      within = record {
        bids = λ x. erase-fewer r x (remaining filled_store r == 0) _ _ settled.bids;
        asks = λ x. erase-fewer r x (remaining filled_store r == 0) _ _ settled.asks;
      };
      own =
          own_erase side run.engine.order_book (settle r filled_store run.engine.order_book).1 r rs
            (remaining filled_store r == 0) front
            (stands_once (terms run.store) run.store.next run.engine.order_book r ready.book)
            settled.bids settled.asks;
      book_symbol = settled.symbol;
    }
