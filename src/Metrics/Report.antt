-- ===== src/Metrics/Report.antt =====
-- SystemMetrics::toString.
use high_performance_trading.Base.{ℕ, [], ◌∷◌, ◌++◌, ltb, if◌then◌else◌}
use high_performance_trading.Base.Bytes.{Bytes, codes}
use high_performance_trading.Base.Bytes.Decimal.{print_nat, print_int}
use high_performance_trading.Core.Double.{Double, DoubleText}
use high_performance_trading.Core.Types.{Timestamp}
use high_performance_trading.Metrics.{SystemMetrics, Stats, get_stats, format_uptime}

-- A line with a number behind its label.
abbrev pub count_line : Bytes → ℕ → Bytes
count_line label n = label ++ (print_nat n ++ codes "\n")

module _ {D : Type 0} (d : Double D) (text : DoubleText D) where
  -- A line with so many decimals between its label and its unit.
  abbrev pub value_line : Bytes → ℕ → D → Bytes → Bytes
  value_line label decimals x unit = label ++ (text.fixed decimals x ++ (unit ++ codes "\n"))

  abbrev pub accept_rate : Stats D → D
  accept_rate stats =
      if ltb 0 stats.orders_submitted
      then d.div (d.mul (d.of_nat 100) (d.of_nat stats.orders_accepted))
          (d.of_nat stats.orders_submitted)
      else d.of_nat 0

  abbrev pub rate_lines : Stats D → Bytes
  rate_lines stats =
      let seconds = d.of_nat stats.uptime_seconds in
      if ltb 0 stats.uptime_seconds
      then value_line (codes "  Orders/sec:        ") 1
          (d.div (d.of_nat stats.orders_submitted) seconds) []
        ++ value_line (codes "  Trades/sec:        ") 1
            (d.div (d.of_nat stats.trades_executed) seconds) []
      else []

  -- The unit of the latency is two bytes for the micro sign and an s.
  unfoldable pub to_string : Timestamp → SystemMetrics → Bytes
  to_string now m =
      let stats = get_stats d now m in
      codes "\n========== SYSTEM METRICS ==========\nUptime:              "
      ++ (format_uptime stats.uptime_seconds
          ++ (codes "\n\nOrders:\n"
              ++ (count_line (codes "  Submitted:         ") stats.orders_submitted
                  ++ (count_line (codes "  Accepted:          ") stats.orders_accepted
                      ++ (count_line (codes "  Rejected:          ") stats.orders_rejected
                          ++ (count_line (codes "  Cancelled:         ") stats.orders_cancelled
                              ++ (value_line (codes "  Accept Rate:       ") 1 (accept_rate stats)
                                    (codes "%")
                                  ++ (codes "\nTrades:\n"
                                      ++ (count_line (codes "  Executed:          ")
                                            stats.trades_executed
                                          ++ (codes "  Volume:            "
                                              ++ (print_nat stats.volume_traded
                                                  ++ (codes " shares\n"
                                                      ++ (value_line
                                                            (codes "  Value:             $") 2
                                                            stats.value_traded []
                                                          ++ (codes "\nPerformance:\n"
                                                            ++ (value_line
                                                            (codes "  Avg Latency:       ") 2
                                                            (d.div stats.average_latency
                                                            (d.of_nat 1000))
                                                            (b' ' ∷ 0xC2 ∷ 0xB5 ∷ b's' ∷ [])
                                                            ++ (rate_lines stats
                                                            ++ (codes
                                                            "\nConnections:\n  Active:            "
                                                            ++ (print_int stats.active_connections
                                                            ++ (codes "\n\nErrors:\n"
                                                            ++ (count_line
                                                            (codes "  Errors:            ")
                                                            stats.errors
                                                            ++ (count_line
                                                            (codes "  Warnings:          ")
                                                            stats.warnings
                                                            ++ codes
                                                            "====================================\n")))))))))))))))))))))
