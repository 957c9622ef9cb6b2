-- ===== src/SimpleServer.antt =====
-- src/simple_server.cpp: the server that turns FIX messages into orders. The header that it includes
-- has no `formatOrderBookJSON`, so the text of the book is an argument.
pub mod Answers
use high_performance_trading.Base.{ℕ, ◌+◌, Option, none, some, List, [], ◌∷◌, ◌++◌, ◌>>=◌}
use high_performance_trading.Base.Int.{pos}
use high_performance_trading.Base.Bytes.{Bytes, codes}
use high_performance_trading.Base.Bytes.Decimal.{print_nat}
use high_performance_trading.Core.Double.{Double, DoubleText}
use high_performance_trading.Core.Types.{Timestamp, OrderId}
use high_performance_trading.Core.Order.{Order}
use high_performance_trading.Core.Trade.{Trade}
use high_performance_trading.Store.{Store, Ref, alloc}
use high_performance_trading.Book.{OrderBook}
use high_performance_trading.Engine.{Clock, Engine, Run}
use high_performance_trading.Engine.Matching.{submit_order}
use high_performance_trading.Network.Fix.{
  FixMessage, parse, serialize, to_order, create_execution_report,
}
use high_performance_trading.Network.MarketData.{format_trade}
use high_performance_trading.Network.TcpServer.{TcpServer, broadcast}

-- The orders, the engine and the TCP server, what was sent to which socket, and how many messages
-- ended in the handler's `catch`.
pub record Session (D : Type 0) : Type 0 where
  pub store : Store
  pub engine : Engine D
  pub server : TcpServer
  pub sent : List (ℕ × Bytes)
  pub errors : ℕ

module _ {D : Type 0} where
  abbrev pub failed : Session D → Session D
  failed s = record s { errors = s.errors + 1 }

abbrev pub exec_id : OrderId → Bytes
exec_id id = codes "EXEC_" ++ print_nat id

module _ {D : Type 0} (d : Double D) (text : DoubleText D) where
  -- The trade callback sends each trade to every client.
  unfoldable pub trade_messages : List Trade → TcpServer → List (ℕ × Bytes)
  trade_messages [] server = []
  trade_messages (trade ∷ trades) server =
      broadcast (format_trade d text trade ++ codes "\n") server ++ trade_messages trades server

  abbrev pub report_of : Order → Bytes
  report_of order =
      serialize (create_execution_report d text order (exec_id order.id) b'0' 0 (pos 0))

module _ {D : Type 0} (d : Double D) (text : DoubleText D) (book_text : OrderBook → Bytes) where
  -- After `submitOrder` has returned.
  abbrev pub reply : Ref → ℕ → Run D → Session D → Session D
  reply r client run s = record s {
    store = run.store;
    engine = run.engine;
    sent =
        s.sent
        ++ (trade_messages d text run.trades s.server
            ++ ((client, report_of d text (run.store.cell r))
                ∷ broadcast (book_text run.engine.order_book ++ codes "\n") s.server));
  }

  -- `later` is the clock of the trades.
  unfoldable pub process_order : Order → ℕ → Clock → Session D → Session D
  process_order order client later s =
      let r = s.store.next in
      elim (submit_order d later r (alloc s.store order) s.engine) [
        | none ↦ failed s
        | some run ↦ reply r client run s
      ]

  -- The message callback; an exception before an order exists leaves everything as it was.
  unfoldable pub handle_fix_message : Bytes → ℕ → Timestamp → Clock → Session D → Session D
  handle_fix_message message client now later s =
      elim (parse message >>= λ m. to_order d text m now) [
        | none ↦ failed s
        | some none ↦ s
        | some (some order) ↦ process_order order client later s
      ]
