-- ===== src/Engine/Fills/Settle.antt =====
-- The update of the order book after a fill.
use high_performance_trading.Base.{
  ◌≡◌, refl, ◌≢◌, true, false, some, ◌==◌, if◌then◌else◌, erase, arith, Bool-cases, inl, inr,
}
use high_performance_trading.Base.Assoc.{find}
use high_performance_trading.Core.Order.{cancel}
use high_performance_trading.Store.{Ref, Store, terms, remaining, modify, terms-cancel}
use high_performance_trading.Book.{OrderBook}
use high_performance_trading.Book.Side.{queue}
use high_performance_trading.Book.Invariant.{IsBook}
use high_performance_trading.Book.Cancel.{cancel_order_lem}
use high_performance_trading.Engine.{settle}

-- The store and the book after `settle`: the resting order is gone from the queues exactly if it
-- had nothing left, and no quantity and no other order has changed.
pub record Settled (r : Ref) (s : Store) (b : OrderBook) (s' : Store) (b' : OrderBook)
    : Type 0 where
  pub valid : IsBook (terms s') s'.next b'
  pub same_terms : terms s' ≡ terms s
  pub same_next : s'.next ≡ s.next
  pub same_left : remaining s' r ≡ remaining s r
  pub others : (x : Ref) → x ≢ r → s'.cell x ≡ s.cell x
  pub bids : queue b'.bids ≡ (if remaining s r == 0 then erase r (queue b.bids) else queue b.bids)
  pub asks : queue b'.asks ≡ (if remaining s r == 0 then erase r (queue b.asks) else queue b.asks)
  pub symbol : b'.symbol ≡ b.symbol

module _ (r : Ref) (s : Store) (b : OrderBook) (v : IsBook (terms s) s.next b)
    (found : find (s.cell r).id b.order_map ≡ some r) where
  settle_spent :
      (remaining s r == 0) ≡ true
      → (b' : OrderBook) × (settle r s b ≡ (modify s r cancel, b'))
        × Settled r s b (modify s r cancel) b'
  unfolding settle cancel
  settle_spent spent =
      let (b', cancelled, loses) = cancel_order_lem s b (s.cell r).id v r found in
      (
        b',
        rw (spent, cancelled),
        record {
          valid = rw (terms-cancel s r) loses.valid;
          same_terms = terms-cancel s r;
          same_next = refl;
          same_left = ground arith;
          others = λ x ne. ground arith;
          bids = rw spent loses.bids;
          asks = rw spent loses.asks;
          symbol = loses.symbol;
        },
      )

  settle_open : (remaining s r == 0) ≡ false → settle r s b ≡ (s, b)
  unfolding settle
  settle_open more = rw more

  pub settle-Settled : Settled r s b (settle r s b).0 (settle r s b).1
  settle-Settled = elim (Bool-cases (remaining s r == 0)) [
    | inl spent ↦ let (b', settled, done) = settle_spent spent in rw settled done
    | inr more ↦ rw (settle_open more) (record {
      valid = v;
      same_terms = refl;
      same_next = refl;
      same_left = refl;
      others = λ x ne. refl;
      bids = rw more;
      asks = rw more;
      symbol = refl;
    })
  ]
