-- ===== src/Book/Views/Best.antt =====
-- OrderBook::getBestBid, getBestAsk, getBestBidOrder, getBestAskOrder and getSpread.
use high_performance_trading.Base.{
  ℕ, ◌<◌, ◌≡◌, ◌^◌, refl, sym, ap, subst, false, Option, none, some, List, [], ◌∷◌, ◌++◌, arith,
  All, All-append, All-map, head?,
}
use high_performance_trading.Base.Int.{pos, ltb_ℤ→ge, ◌≤ℤ◌, ◌-ℤ◌}
use high_performance_trading.Base.Word.{of_word-to_word}
use high_performance_trading.Base.SortedMap.{KeyOrder, Behind}
use high_performance_trading.Core.Types.{Price, Symbol, Side, buy, sell}
use high_performance_trading.Store.{Ref, Terms}
use high_performance_trading.PriceLevel.{is_empty_list}
use high_performance_trading.Book.{Levels, OrderBook, bid_order, ask_order}
use high_performance_trading.Book.Side.{queue, Belongs, AreLevels, IsSide}
use high_performance_trading.Book.Invariant.{IsBook}
use high_performance_trading.Book.Views.{
  first_price, first_order, get_best_bid, get_best_ask, get_best_bid_order, get_best_ask_order,
  get_spread,
}

head?-append : (xs ys : List Ref) → is_empty_list xs ≡ false → head? (xs ++ ys) ≡ head? xs
head?-append [] ys h = cc
head?-append (x ∷ xs) ys h = refl

module _ (t : Ref → Terms) (next : Ref) (side : Side) (symbol : Symbol) where
  first_order-head? :
      (m : Levels) → AreLevels t next side symbol m → first_order m ≡ head? (queue m)
  unfolding first_order queue
  first_order-head? [] v = refl
  first_order-head? ((j, level) ∷ m) v = sym (head?-append level.orders (queue m) v.1)

  module _ (o : KeyOrder Price) where
    -- What stands in a side is not before the first price of it.
    abbrev pub NotBefore : Price → Ref → Type 0
    NotBefore p x = o.before (t x).price p ≡ false

    Behind-All :
        (p : Price) (m : Levels)
        → Behind o p m
        → AreLevels t next side symbol m
        → All (NotBefore p) (queue m)
    unfolding queue
    Behind-All p [] b v = tt
    Behind-All p ((j, level) ∷ m) b v =
        All-append (NotBefore p) level.orders (queue m)
          (All-map level.orders (λ x h. ground (arith, o.before_trans p j p, o.before_irrefl p, h))
            v.2)
          (Behind-All p m b.1 v.3)

    first_price-NotBefore :
        (p : Price) (m : Levels)
        → IsSide o t next side symbol m
        → first_price m ≡ some p
        → All (NotBefore p) (queue m)
    unfolding first_price queue
    first_price-NotBefore p [] v e = cc
    first_price-NotBefore p ((j, level) ∷ m) v e =
        let k : j ≡ p = ground arith in
        All-append (NotBefore p) level.orders (queue m)
          (All-map level.orders (λ x h. ground (arith, k, o.before_irrefl p, h)) v.levels.2)
          (Behind-All p m (subst (λ q. Behind o q m) k v.ordered.0) v.levels.3)

    -- The first order of a side with a first price has that price.
    first_price-first :
        (p : Price) (m : Levels)
        → AreLevels t next side symbol m
        → first_price m ≡ some p
        → (r : Ref) × (head? (queue m) ≡ some r) × ((t r).price ≡ p)
    unfolding first_price queue
    first_price-first p [] v e = cc
    first_price-first p ((j, level) ∷ m) v e = first_at level.orders v.1 v.2
      where
        first_at :
            (xs : List Ref)
            → is_empty_list xs ≡ false
            → All (Belongs t next side symbol j) xs
            → (r : Ref) × (head? (xs ++ queue m) ≡ some r) × ((t r).price ≡ p)
        first_at [] h a = cc
        first_at (x ∷ xs) h a = (x, refl, ground (arith, e))

abbrev pub price_of : (Ref → Terms) → Option Ref → Option Price
price_of t none = none
price_of t (some r) = some (t r).price

first_price-price_of :
    (t : Ref → Terms) (next : Ref) (side : Side) (symbol : Symbol) (m : Levels)
    → AreLevels t next side symbol m
    → first_price m ≡ price_of t (head? (queue m))
unfolding first_price queue
first_price-price_of t next side symbol [] v = refl
first_price-price_of t next side symbol ((j, level) ∷ m) v = first_at level.orders v.1 v.2
  where
    first_at :
        (xs : List Ref)
        → is_empty_list xs ≡ false
        → All (Belongs t next side symbol j) xs
        → some j ≡ price_of t (head? (xs ++ queue m))
    first_at [] h a = cc
    first_at (x ∷ xs) h a = ground arith

module _ (t : Ref → Terms) (next : Ref) (b : OrderBook) (v : IsBook t next b) where
  -- In a well-formed book the best bid and ask orders are the heads of the two price-time queues.
  pub best_orders_first :
      (get_best_bid_order b ≡ head? (queue b.bids)) × (get_best_ask_order b ≡ head? (queue b.asks))
  unfolding get_best_bid_order get_best_ask_order
  best_orders_first = (
    first_order-head? t next buy b.symbol b.bids v.bid_side.levels,
    first_order-head? t next sell b.symbol b.asks v.ask_side.levels,
  )

  module _ (p : Price) where
    -- In a well-formed book the best bid, if there is one, is the price of the first bid by price
    -- and time, and no bid is higher.
    pub get_best_bid_max :
        get_best_bid b ≡ some p
        → (r : Ref) × (head? (queue b.bids) ≡ some r)
          × ((t r).price ≡ p)
          × All (λ x. (t x).price ≤ℤ p) (queue b.bids)
    unfolding bid_order get_best_bid
    get_best_bid_max e =
        let (r, first, price) =
          first_price-first t next buy b.symbol bid_order p b.bids v.bid_side.levels e in
        (
          r,
          first,
          price,
          All-map (queue b.bids) (λ x h. ltb_ℤ→ge p (t x).price h)
              (first_price-NotBefore t next buy b.symbol bid_order p b.bids v.bid_side e),
        )

    -- In a well-formed book the best ask, if there is one, is the price of the first ask by price
    -- and time, and no ask is lower.
    pub get_best_ask_min :
        get_best_ask b ≡ some p
        → (r : Ref) × (head? (queue b.asks) ≡ some r)
          × ((t r).price ≡ p)
          × All (λ x. p ≤ℤ (t x).price) (queue b.asks)
    unfolding ask_order get_best_ask
    get_best_ask_min e =
        let (r, first, price) =
          first_price-first t next sell b.symbol ask_order p b.asks v.ask_side.levels e in
        (
          r,
          first,
          price,
          All-map (queue b.asks) (λ x h. ltb_ℤ→ge (t x).price p h)
              (first_price-NotBefore t next sell b.symbol ask_order p b.asks v.ask_side e),
        )

-- The best prices are those of the first orders.
pub best_prices_first :
    (t : Ref → Terms) (next : Ref) (b : OrderBook)
    → IsBook t next b
    → (get_best_bid b ≡ price_of t (head? (queue b.bids)))
      × (get_best_ask b ≡ price_of t (head? (queue b.asks)))
unfolding get_best_bid get_best_ask
best_prices_first t next b v = (
  first_price-price_of t next buy b.symbol b.bids v.bid_side.levels,
  first_price-price_of t next sell b.symbol b.asks v.ask_side.levels,
)

-- For non-negative best prices below 2^63 the spread is the exact difference, without a wrap.
pub get_spread_exact :
    (b : OrderBook) (bid ask : ℕ)
    → bid < 2 ^ 63
    → ask < 2 ^ 63
    → get_best_bid b ≡ some (pos bid)
    → get_best_ask b ≡ some (pos ask)
    → get_spread b ≡ some (pos ask -ℤ pos bid)
unfolding get_spread
get_spread_exact b bid ask hb ha eb ea =
    rw (eb, ea) (ap some (of_word-to_word (pos ask -ℤ pos bid) (unfold ◌-ℤ◌ in ground arith)))
