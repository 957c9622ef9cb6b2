-- ===== src/Engine/Fills/Reference.antt =====
-- The reference `fills`, the front of a queue, and what a loop makes of a run.
use mathlib.Core.Path.{ap₂}
use mathlib.Core.List.{append-nil, append_assoc}
use high_performance_trading.Base.{
  ℕ, suc, length, ◌+◌, ◌-◌, ◌≡◌, ◌<◌, ◌≤◌, refl, sym, ap, subst, ◌∙◌, ◌≢◌, true, false, List, [],
  ◌∷◌, ◌==◌, min, count, arith, ◌++◌, All, head?, ◌||◌, ltb, if◌then◌else◌, Bool-cases, inl, inr,
}
use high_performance_trading.Core.Types.{Price, Quantity, Side, buy, sell, Timestamp, Symbol}
use high_performance_trading.Core.Trade.{Trade, make_trade}
use high_performance_trading.Store.{Ref, Store, Terms, terms, remaining}
use high_performance_trading.Book.{OrderBook}
use high_performance_trading.Book.Side.{queue}
use high_performance_trading.Book.Invariant.{IsBook, listed}
use high_performance_trading.Book.Views.Best.{price_of, best_prices_first, best_orders_first}
use high_performance_trading.Engine.{Clock, Run, best_opposite, beyond, trade_of}
use high_performance_trading.Engine.Fills.{
  front_order, opposite_queue, own_queue, standing, fills, taken, volume, trade_of_fill,
  trades_from, IsReady, IsWithin,
}
use high_performance_trading.Engine.Fills.Step.{Stepped}

pub fills-frame :
    (side : Side) (p : Price) (s s' : Store) (left : Quantity) (rs : List Ref)
    → All (λ x. s'.cell x ≡ s.cell x) rs
    → fills side p s' left rs ≡ fills side p s left rs
unfolding fills
fills-frame side p s s' left [] h = refl
fills-frame side p s s' left (r ∷ rs) h =
    ground (arith, h.0, fills-frame side p s s' (left - min left (remaining s r)) rs h.1)

pub fills-zero : (side : Side) (p : Price) (s : Store) (rs : List Ref) → fills side p s 0 rs ≡ []
unfolding fills
fills-zero side p s [] = refl
fills-zero side p s (r ∷ rs) = refl

-- What a matching loop makes of a run, in terms of the fills of the reference.
pub record Matched {D : Type 0} (side : Side) (order : Ref) (now : Clock)
    (fs : List (Ref × Quantity)) (run after : Run D) : Type 0 where
  pub ready : IsReady order after
  pub same_terms : terms after.store ≡ terms run.store
  pub same_next : after.store.next ≡ run.store.next
  pub trades :
      after.trades
      ≡ run.trades
        ++ trades_from side order run.engine.symbol now (terms run.store) (length run.trades) fs
  pub left : after.left + volume fs ≡ run.left
  pub takes : (x : Ref) → x ≢ order → remaining after.store x + taken x fs ≡ remaining run.store x
  pub symbol : after.engine.symbol ≡ run.engine.symbol
  pub within : IsWithin run.engine.order_book after.engine.order_book
  pub opposite :
      opposite_queue side after.engine.order_book
      ≡ standing run.store fs (opposite_queue side run.engine.order_book)
  pub own : own_queue side after.engine.order_book ≡ own_queue side run.engine.order_book
  pub book_symbol : after.engine.order_book.symbol ≡ run.engine.order_book.symbol

pub nothing-Matched :
    {D : Type 0} (side : Side) (order : Ref) (now : Clock) (run : Run D)
    → IsReady order run
    → Matched side order now [] run run
unfolding taken volume standing trades_from
nothing-Matched side order now run ready = record {
  ready = ready;
  same_terms = refl;
  same_next = refl;
  trades = sym (append-nil run.trades);
  left = omega arith;
  takes = λ x ne. omega arith;
  symbol = refl;
  within = record { bids = λ x. omega arith; asks = λ x. omega arith };
  opposite = refl;
  own = refl;
  book_symbol = refl;
}

standing-frame :
    (s s' : Store) (fs : List (Ref × Quantity)) (rs : List Ref)
    → All (λ x. s'.cell x ≡ s.cell x) rs
    → standing s' fs rs ≡ standing s fs rs
unfolding standing
standing-frame s s' [] rs h = refl
standing-frame s s' (f ∷ fs) [] h = refl
standing-frame s s' ((x, part) ∷ fs) (r ∷ rs) h = ground (arith, h.0, standing-frame s s' fs rs h.1)

-- A fill at the front: the order stays and nothing follows, or it goes.
standing-step :
    (s s' : Store) (left : Quantity) (r : Ref) (rs q : List Ref) (fs : List (Ref × Quantity))
    → All (λ x. s'.cell x ≡ s.cell x) rs
    → q ≡ (if ltb left (remaining s r) then r ∷ rs else rs)
    → (ltb left (remaining s r) ≡ true → fs ≡ [])
    → standing s' fs q ≡ standing s ((r, min left (remaining s r)) ∷ fs) (r ∷ rs)
unfolding standing
standing-step s s' left r rs q fs same e last = elim (Bool-cases (ltb left (remaining s r))) [
  | inl less ↦
      let part : ltb (min left (remaining s r)) (remaining s r) ≡ true = ground arith in
      rw (e, less, part, last less)
  | inr enough ↦
      let part : ltb (min left (remaining s r)) (remaining s r) ≡ false = ground arith in
      rw (e, enough, part, standing-frame s s' fs rs same)
]

length_snoc : (ts : List Trade) (t : Trade) → length (ts ++ t ∷ []) ≡ suc (length ts)
length_snoc [] t = refl
length_snoc (x ∷ ts) t = ap suc (length_snoc ts t)

trade_of-fill :
    (side : Side) (order : Ref) (symbol : Symbol) (now : Timestamp) (t : Ref → Terms) (r : Ref)
    (part : Quantity)
    → trade_of side (t order).id (t r).id symbol (t r).price part now
      ≡ trade_of_fill side order symbol now t (r, part)
unfolding make_trade
trade_of-fill buy order symbol now t r part = refl
trade_of-fill sell order symbol now t r part = refl

-- The trades of a round and of the rest of the loop, which goes on counting.
after_round :
    (ts ts' : List Trade) (t : Trade) (f g : ℕ → List (Ref × Quantity) → List Trade)
    (fs : List (Ref × Quantity))
    → ts' ≡ ts ++ t ∷ []
    → f ≡ g
    → ts' ++ f (length ts') fs ≡ ts ++ t ∷ g (suc (length ts)) fs
after_round ts ts' t f g fs e same =
    rw (e, same, length_snoc ts t) (append_assoc ts (t ∷ []) (g (suc (length ts)) fs))

-- A round and then the rest of the loop.
pub step-Matched :
    {D : Type 0} (side : Side) (order : Ref) (now : Clock) (r : Ref) (rs : List Ref)
    (fs : List (Ref × Quantity)) (run run1 after : Run D)
    → opposite_queue side run.engine.order_book ≡ r ∷ rs
    → Stepped now side order (run.store.cell r).price r rs run run1
    → All (λ x. run1.store.cell x ≡ run.store.cell x) rs
    → (ltb run.left (remaining run.store r) ≡ true → fs ≡ [])
    → Matched side order now fs run1 after
    → Matched side order now ((r, min run.left (remaining run.store r)) ∷ fs) run after
unfolding taken volume standing trades_from
step-Matched side order now r rs fs run run1 after front st same last m = record {
  ready = m.ready;
  same_terms = m.same_terms ∙ st.same_terms;
  same_next = m.same_next ∙ st.same_next;
  trades =
      m.trades
      ∙ after_round run.trades run1.trades _
          (trades_from side order run1.engine.symbol now (terms run1.store))
          (trades_from side order run.engine.symbol now (terms run.store)) fs
          (st.trades
            ∙ ap (λ (t : Trade). run.trades ++ t ∷ [])
                (trade_of-fill side order run.engine.symbol (now (length run.trades))
                  (terms run.store) r (min run.left (remaining run.store r))))
          (ap₂ (λ (symbol : Symbol) (t : Ref → Terms). trades_from side order symbol now t)
            st.symbol st.same_terms);
  left = omega (arith, m.left, st.left);
  takes = λ x ne. ground (arith, m.takes x ne, st.taken, st.others x);
  symbol = m.symbol ∙ st.symbol;
  within = record {
    bids = λ x. omega (arith, m.within.bids x, st.within.bids x);
    asks = λ x. omega (arith, m.within.asks x, st.within.asks x);
  };
  opposite =
      m.opposite
      ∙ standing-step run.store run1.store run.left r rs
          (opposite_queue side run1.engine.order_book) fs same st.opposite last
      ∙ ap (standing run.store ((r, min run.left (remaining run.store r)) ∷ fs)) (sym front);
  own = m.own ∙ st.own;
  book_symbol = m.book_symbol ∙ st.book_symbol;
}

pub best_opposite-price :
    (side : Side) (t : Ref → Terms) (next : Ref) (b : OrderBook)
    → IsBook t next b
    → best_opposite side b ≡ price_of t (head? (opposite_queue side b))
best_opposite-price buy t next b v = (best_prices_first t next b v).1
best_opposite-price sell t next b v = (best_prices_first t next b v).0

pub front_order-head? :
    (side : Side) (t : Ref → Terms) (next : Ref) (b : OrderBook)
    → IsBook t next b
    → front_order side b ≡ head? (opposite_queue side b)
front_order-head? buy t next b v = (best_orders_first t next b v).1
front_order-head? sell t next b v = (best_orders_first t next b v).0

-- No order stands twice in the queue of a side.
pub opposite_once :
    (side : Side) (t : Ref → Terms) (next : Ref) (b : OrderBook) (x : Ref)
    → IsBook t next b
    → count x (opposite_queue side b) ≤ 1
unfolding listed
opposite_once buy t next b x v = ground (arith, v.indexed x)
opposite_once sell t next b x v = ground (arith, v.indexed x)

pub opposite_apart :
    (side : Side) (b : OrderBook) (order : Ref)
    → count order (queue b.bids) + count order (queue b.asks) ≡ 0
    → count order (opposite_queue side b) ≡ 0
opposite_apart buy b order h = omega arith
opposite_apart sell b order h = omega arith

pub ne_front : (x r : Ref) (rs : List Ref) → 0 < count x rs → count x (r ∷ rs) ≤ 1 → x ≢ r
ne_front x r rs h once e = ground arith

pub ne_absent :
    (x order r : Ref) (rs : List Ref) → 0 < count x rs → count order (r ∷ rs) ≡ 0 → x ≢ order
ne_absent x order r rs h absent e = omega (arith, subst (λ (y : Ref). 0 < count y rs) e h, absent)

pub fills-nil :
    (side : Side) (p : Price) (s : Store) (left : Quantity) → fills side p s left [] ≡ []
unfolding fills
fills-nil side p s left = refl

pub fills-stop :
    (side : Side) (p : Price) (s : Store) (left : Quantity) (r : Ref) (rs : List Ref)
    → (left == 0 || beyond side (s.cell r).price p) ≡ true
    → fills side p s left (r ∷ rs) ≡ []
unfolding fills
fills-stop side p s left r rs e = rw e

pub fills-go :
    (side : Side) (p : Price) (s : Store) (left : Quantity) (r : Ref) (rs : List Ref)
    → (left == 0 || beyond side (s.cell r).price p) ≡ false
    → fills side p s left (r ∷ rs)
      ≡ (r, min left (remaining s r)) ∷ fills side p s (left - min left (remaining s r)) rs
unfolding fills
fills-go side p s left r rs e = rw e
