-- ===== src/Network/Fix/Reports.antt =====
-- The quantities of FIXMessage::createExecutionReport.
use high_performance_trading.Base.{ℕ, ◌<◌, ◌≤◌, ◌^◌, ◌-◌, ◌≡◌, some, arith}
use high_performance_trading.Base.Int.{pos, eqb_ℤ}
use high_performance_trading.Base.Word.{sub64}
use high_performance_trading.Base.Bytes.{Bytes}
use high_performance_trading.Core.Double.{Double, DoubleText}
use high_performance_trading.Core.Types.{Price, Quantity}
use high_performance_trading.Core.Order.{Order}
use high_performance_trading.Network.Fix.Tags.{tag_cum_qty, tag_leaves_qty, tag_order_qty}
use high_performance_trading.Network.Fix.{
  find_field, set_field, set_message_type, get_field, get_field_as_int, create_execution_report,
}
use high_performance_trading.Network.Fix.Orders.{int_of_text-print_nat}

module _ {D : Type 0} (d : Double D) (text : DoubleText D) where
  pub execution_report_quantities :
      (order : Order) (exec_id : Bytes) (exec_type : ℕ) (last_qty : Quantity) (last_px : Price)
      → order.remaining_quantity ≤ order.quantity
      → order.quantity < 2 ^ 31
      → let m = create_execution_report d text order exec_id exec_type last_qty last_px in
        (get_field_as_int tag_order_qty m ≡ some (pos order.quantity))
        × (get_field_as_int tag_leaves_qty m ≡ some (pos order.remaining_quantity))
        × (get_field_as_int tag_cum_qty m ≡ some (pos (order.quantity - order.remaining_quantity)))
  unfolding create_execution_report set_message_type set_field eqb_ℤ get_field_as_int get_field
      find_field
  execution_report_quantities order exec_id exec_type last_qty last_px h k =
      let left = order.quantity - order.remaining_quantity in
      let e : sub64 order.quantity order.remaining_quantity ≡ left = omega arith in
      ground (
        arith,
        e,
        int_of_text-print_nat order.quantity k,
        int_of_text-print_nat order.remaining_quantity (omega arith),
        int_of_text-print_nat left (omega arith),
      )
