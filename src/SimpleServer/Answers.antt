-- ===== src/SimpleServer/Answers.antt =====
-- The answer of the server to a new-order message.
use high_performance_trading.Base.{ℕ, suc, ◌<◌, ◌^◌, ◌≡◌, refl, true, ◌∷◌, ◌++◌, arith}
use high_performance_trading.Base.Bytes.{Bytes, Lacks, IsBytes, codes}
use high_performance_trading.Core.Double.{Double, DoubleText}
use high_performance_trading.Core.Types.{
  OrderId, Price, Quantity, Timestamp, Symbol, Side, OrderType, is_limit,
}
use high_performance_trading.Core.Order.{Order}
use high_performance_trading.Store.{alloc, terms}
use high_performance_trading.Book.{OrderBook}
use high_performance_trading.Book.Invariant.{IsBook, alloc-IsBook}
use high_performance_trading.Engine.{Clock, Run}
use high_performance_trading.Engine.AsWritten.{IsIdle, submit_order_never_trades}
use high_performance_trading.Network.Fix.{serialize, create_new_order}
use high_performance_trading.Network.Fix.Tags.{soh}
use high_performance_trading.Network.Fix.Orders.{Survives, arrived}
use high_performance_trading.Network.Fix.Delivery.{order_over_wire}
use high_performance_trading.Network.TcpServer.{broadcast}
use high_performance_trading.SimpleServer.{
  Session, handle_fix_message, process_order, reply, report_of, trade_messages,
}

-- The session after an order was taken in and answered.
pub record Answered {D : Type 0} (d : Double D) (text : DoubleText D)
    (book_text : OrderBook → Bytes) (order : Order) (client : ℕ) (s s' : Session D) : Type 0 where
  pub stored : s'.store ≡ alloc s.store order
  pub messages :
      s'.sent
      ≡ s.sent
        ++ ((client, report_of d text order)
            ∷ broadcast (book_text s'.engine.order_book ++ codes "\n") s.server)
  pub no_error : s'.errors ≡ s.errors
  pub valid : IsBook (terms s'.store) s'.store.next s'.engine.order_book

module _ {D : Type 0} (d : Double D) (text : DoubleText D) (book_text : OrderBook → Bytes)
    (s : Session D) (v : IsBook (terms s.store) s.store.next s.engine.order_book) where
  reply-Answered :
      (order : Order) (client : ℕ) (run : Run D)
      → IsIdle (alloc s.store order) s.engine run
      → IsBook (terms (alloc s.store order)) (suc s.store.next) run.engine.order_book
      → Answered d text book_text order client s (reply d text book_text s.store.next client run s)
  unfolding trade_messages
  reply-Answered order client run idle valid = record {
    stored = idle.store;
    messages = rw (idle.trades, idle.store) (ground arith);
    no_error = refl;
    valid = rw idle.store valid;
  }

  process_order-Answered :
      (order : Order) (client : ℕ) (later : Clock)
      → Answered d text book_text order client s
          (process_order d text book_text order client later s)
  unfolding process_order
  process_order-Answered order client later =
      let (run, done, idle, valid) =
        submit_order_never_trades d later s.store.next (alloc s.store order) s.engine (omega arith)
          (alloc-IsBook s.store order s.engine.order_book v) in
      rw (done, process_order) (reply-Answered order client run idle valid)

  -- With a well-formed book, the handler of a new-order message (ID and quantity fit an int,
  -- symbol of bytes without the separator, a limit price that comes back from its decimal
  -- notation) stores the order, sends its execution report to the client and then the text of the
  -- book to every client, counts no error, and leaves the book well formed.
  pub handle_fix_message-Answered :
      (id : OrderId) (symbol : Symbol) (side : Side) (type : OrderType) (quantity : Quantity)
      (price : Price) (client : ℕ) (now : Timestamp) (later : Clock)
      → id < 2 ^ 31
      → quantity < 2 ^ 31
      → IsBytes (codes symbol)
      → Lacks soh (codes symbol)
      → (is_limit type ≡ true → Survives d text price)
      → Answered d text book_text (arrived d text id symbol side type quantity price now) client s (
          handle_fix_message d text book_text
            (serialize (create_new_order d text id symbol side type quantity price))
            client
            now
            later
            s)
  unfolding handle_fix_message
  handle_fix_message-Answered id symbol side type quantity price client now later h k bytes clean
        survives =
      let (r, read, order) =
        order_over_wire d text id symbol side type quantity price now h k bytes clean survives in
      rw (read, order, handle_fix_message)
        (process_order-Answered (arrived d text id symbol side type quantity price now) client
          later)
