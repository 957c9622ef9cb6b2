-- ===== src/Network/MarketData/Csv.antt =====
-- The line of MarketDataPublisher::formatTradeCSV, split at its commas.
use high_performance_trading.Base.{ℕ, ◌≡◌, ◌∙◌, ap, inl, List, [], ◌∷◌, ◌++◌, arith}
use high_performance_trading.Base.Int.{pos}
use high_performance_trading.Base.Bytes.{Bytes, codes, Lacks}
use high_performance_trading.Base.Bytes.Search.{lines, lines-append, lines-last}
use high_performance_trading.Base.Bytes.Decimal.{print_nat, print_int, print_int-Lacks}
use high_performance_trading.Core.Double.{Double, DoubleText}
use high_performance_trading.Core.Types.{price_to_double}
use high_performance_trading.Core.Trade.{Trade, get_value}
use high_performance_trading.Network.MarketData.{format_trade_csv, two_decimals, price_text}

number-Lacks : (n : ℕ) → Lacks b',' (print_nat n)
number-Lacks n = unfold print_int in print_int-Lacks (pos n) b',' (omega arith) (inl (omega arith))

next_field :
    (s rest : Bytes) {fields : List Bytes}
    → Lacks b',' s
    → lines b',' rest ≡ fields
    → lines b',' (s ++ b',' ∷ rest) ≡ s ∷ fields
next_field s rest clean h = lines-append b',' s rest clean ∙ ap (λ t. s ∷ t) h

-- The seven fields are read back, the last one with the end of the line.
pub lines-format_trade_csv :
    {D : Type 0} (d : Double D) (text : DoubleText D) (trade : Trade)
    → ((x : D) → Lacks b',' (text.fixed 2 x))
    → Lacks b',' (codes trade.symbol)
    → lines b',' (format_trade_csv d text trade)
      ≡ print_nat trade.timestamp
        ∷ codes trade.symbol
        ∷ print_nat trade.buy_order_id
        ∷ print_nat trade.sell_order_id
        ∷ price_text d text trade.price
        ∷ print_nat trade.quantity
        ∷ (two_decimals d text (get_value d trade) ++ codes "\n")
        ∷ []
unfolding format_trade_csv
lines-format_trade_csv d text trade clean symbol =
    next_field (print_nat trade.timestamp) _ (number-Lacks trade.timestamp) (
      next_field (codes trade.symbol) _ symbol (
        next_field (print_nat trade.buy_order_id) _ (number-Lacks trade.buy_order_id) (
          next_field (print_nat trade.sell_order_id) _ (number-Lacks trade.sell_order_id) (
            next_field (price_text d text trade.price) _ (clean (price_to_double d trade.price)) (
              next_field (print_nat trade.quantity) _ (number-Lacks trade.quantity) (
                lines-last b',' b'\n' (text.fixed 2 (get_value d trade)) (clean (get_value d trade))
                  (omega arith)))))))
