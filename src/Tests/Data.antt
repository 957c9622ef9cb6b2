-- ===== src/Tests/Data.antt =====
-- The inputs that the tests share: three orders, the store that holds them, and a book.
use high_performance_trading.Base.{ℕ, ◌+◌, true, false, [], ◌∷◌, arith, ◌==◌, if◌then◌else◌}
use high_performance_trading.Base.Int.{ℤ, pos, ltb_ℤ, ◌+ℤ◌, ◌-ℤ◌}
use high_performance_trading.Core.Double.{Double, DoubleText}
use high_performance_trading.Base.Bytes.Decimal.{print_int, stoi}
use high_performance_trading.Engine.{Clock, Engine}
use high_performance_trading.Base.Assoc.{find}
use high_performance_trading.Core.Types.{Side, buy, sell, limit, new, Quantity}
use high_performance_trading.Core.Order.{Order}
use high_performance_trading.Store.{Store, Ref, terms}
use high_performance_trading.Book.{OrderBook}
use high_performance_trading.Book.Side.{queue}
use high_performance_trading.Book.Invariant.{IsBook, listed}

abbrev pub order_of : ℕ → Side → ℕ → Quantity → Order
order_of id side price quantity = record {
  id = id;
  symbol = "AAPL";
  side = side;
  order_type = limit;
  price = pos price;
  quantity = quantity;
  remaining_quantity = quantity;
  status = new;
  timestamp = 7;
}

abbrev pub cells : Ref → Order
cells r =
    if r == 0
    then order_of 1 buy 10000 50
    else if r == 1
    then order_of 2 buy 10000 30
    else if r == 2
    then order_of 3 sell 10100 40
    else order_of 4 buy 10100 100

-- References 0 to 2 rest in the book, 3 is a new order.
abbrev pub shop : Store
shop = record { cell = cells; next = 4 }

abbrev pub book : OrderBook
book = record {
  symbol = "AAPL";
  bids = (pos 10000, record { price = pos 10000; total_quantity = 80; orders = 0 ∷ 1 ∷ [] }) ∷ [];
  asks = (pos 10100, record { price = pos 10100; total_quantity = 40; orders = 2 ∷ [] }) ∷ [];
  order_map = (1, 0) ∷ (2, 1) ∷ (3, 2) ∷ [];
}

pub book-IsBook : IsBook (terms shop) 4 book
unfolding queue listed find
book-IsBook = record {
  bid_side = record { ordered = omega arith; levels = ground arith };
  ask_side = record { ordered = omega arith; levels = ground arith };
  indexed = λ r. ground arith;
  keyed = λ id r e. ground arith;
}

-- Integers in the place of `double`: the theorems assume no law of it.
abbrev pub whole : Double ℤ
whole = record {
  of_int = λ a. a;
  of_nat = pos;
  truncate = λ a. a;
  add = ◌+ℤ◌;
  sub = ◌-ℤ◌;
  mul = λ a b. a;
  div = λ a b. a;
  neg = λ a. pos 0 -ℤ a;
  lt = ltb_ℤ;
}

abbrev pub whole_text : DoubleText ℤ
whole_text = record { to_string = print_int; fixed = λ n a. print_int a; stod = stoi }

abbrev pub engine : Engine ℤ
engine = record {
  order_book = book;
  symbol = "AAPL";
  next_order_id = 5;
  stats = record {
    total_trades = 0;
    total_volume = 0;
    total_value = pos 0;
    market_orders_matched = 0;
    limit_orders_matched = 0;
  };
  trade_callback = true;
  order_update_callback = false;
}

-- The readings of a clock.
abbrev pub ticks : Clock
ticks k = 9 + k
