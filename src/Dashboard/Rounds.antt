-- ===== src/Dashboard/Rounds.antt =====
-- The rounds of the simulation thread: each ends, is counted once as accepted or rejected, and keeps
-- the book well formed.
use high_performance_trading.Base.{
  ℕ, ◌+◌, ◌%◌, ◌≡◌, refl, ◌∙◌, Option, some, List, [], ◌∷◌, arith, ◌>>=◌, length,
}
use high_performance_trading.Base.Word.{word}
use high_performance_trading.Core.Double.{Double, DoubleText}
use high_performance_trading.Engine.{Clock}
use high_performance_trading.Core.Types.{Timestamp, Symbol, price_to_double}
use high_performance_trading.Core.Order.{Order}
use high_performance_trading.Store.{alloc, terms}
use high_performance_trading.Book.Invariant.{IsBook, alloc-IsBook}
use high_performance_trading.Engine.AsWritten.{submit_order_never_trades}
use high_performance_trading.Risk.{
  ValidationResult, accepted, rejected_order_size, get_position, validate_order,
}
use high_performance_trading.Risk.Positions.{get_position-validate_order}
use high_performance_trading.Base.Word.{add64}
use high_performance_trading.Metrics.{
  record_order_submitted, record_order_accepted, record_order_rejected,
}
use high_performance_trading.Dashboard.{
  Dashboard, simulation_round, submit, decide, on_trades, random_order,
}

-- What a round reads: three random numbers, the clock for the order, and the clock for its trades.
pub record Round : Type 0 where
  pub coin : ℕ
  pub percent : ℕ
  pub size : ℕ
  pub now : Timestamp
  pub later : Clock

-- The state after so many rounds.
pub record AfterRounds {D : Type 0} (d : Double D) (n : ℕ) (s s' : Dashboard D) : Type 0 where
  pub submitted : s'.metrics.orders_submitted % word ≡ (s.metrics.orders_submitted + n) % word
  pub decided :
      (s'.metrics.orders_accepted + s'.metrics.orders_rejected) % word
      ≡ (s.metrics.orders_accepted + s.metrics.orders_rejected + n) % word
  pub no_trade : s'.metrics.trades_executed ≡ s.metrics.trades_executed
  pub positions : (symbol : Symbol) → get_position d symbol s'.risk ≡ get_position d symbol s.risk
  pub valid : IsBook (terms s'.store) s'.store.next s'.engine.order_book

module _ {D : Type 0} (d : Double D) (text : DoubleText D) (to_uint64 : D → ℕ) (cent : D) where
  -- An accepted order.
  submit_lem :
      (order : Order) (later : Clock) (s : Dashboard D)
      → IsBook (terms s.store) s.store.next s.engine.order_book
      → (s' : Dashboard D) × (submit d text to_uint64 order later s ≡ some s')
        × (s'.metrics ≡ s.metrics)
        × (s'.risk ≡ s.risk)
        × IsBook (terms s'.store) s'.store.next s'.engine.order_book
  unfolding submit on_trades
  submit_lem order later s v =
      let (run, done, idle, valid) =
        submit_order_never_trades d later s.store.next (alloc s.store order) s.engine (omega arith)
          (alloc-IsBook s.store order s.engine.order_book v) in
      (
        record s { store = run.store; engine = run.engine },
        rw (done, idle.trades),
        refl,
        refl,
        rw idle.store valid,
      )

  decide_lem :
      (result : ValidationResult) (order : Order) (later : Clock) (s : Dashboard D)
      → IsBook (terms s.store) s.store.next s.engine.order_book
      → (s' : Dashboard D) × (decide d text to_uint64 result order later s ≡ some s')
        × ((s'.metrics.orders_accepted + s'.metrics.orders_rejected) % word
            ≡ (s.metrics.orders_accepted + s.metrics.orders_rejected + 1) % word)
        × (s'.metrics.orders_submitted ≡ s.metrics.orders_submitted)
        × (s'.metrics.trades_executed ≡ s.metrics.trades_executed)
        × (s'.risk ≡ s.risk)
        × IsBook (terms s'.store) s'.store.next s'.engine.order_book
  decide_lem accepted order later s v =
      let (s', done, same, risk, valid) =
        submit_lem order later (record s { metrics = record_order_accepted s.metrics }) v in
      (s', done, rw same (omega arith), rw same refl, rw same refl, risk, valid)
  decide_lem rejected_order_size order later s v = (
    record s { metrics = record_order_rejected s.metrics },
    refl,
    omega arith,
    refl,
    refl,
    refl,
    v,
  )
  decide_lem _ order later s v = (
    record s { metrics = record_order_rejected s.metrics },
    refl,
    omega arith,
    refl,
    refl,
    refl,
    v,
  )

  simulation_round_lem :
      (r : Round) (s : Dashboard D)
      → IsBook (terms s.store) s.store.next s.engine.order_book
      → (s' : Dashboard D) × (simulation_round d text to_uint64 cent r.coin r.percent r.size r.now
            r.later s
          ≡ some s')
        × AfterRounds d 1 s s'
  unfolding simulation_round
  simulation_round_lem r s v =
      let order =
        random_order d text to_uint64 cent s.next_order_id r.coin r.percent r.size r.now in
      let price = price_to_double d order.price in
      let checked = validate_order d order price s.risk in
      let begun : Dashboard D = record s {
        next_order_id = add64 s.next_order_id 1;
        metrics = record_order_submitted s.metrics;
        risk = checked.0;
      } in
      let (s', done, decided, submitted, trades, risk, valid) =
        decide_lem checked.1 order r.later begun v in
      (
        s',
        done,
        record {
          submitted = rw submitted (omega arith);
          decided = decided;
          no_trade = trades;
          positions = λ symbol. rw risk (get_position-validate_order d order price s.risk symbol);
          valid = valid;
        },
      )

  unfoldable pub run_rounds : List Round → Dashboard D → Option (Dashboard D)
  run_rounds [] s = some s
  run_rounds (r ∷ rounds) s =
      simulation_round d text to_uint64 cent r.coin r.percent r.size r.now r.later s
      >>= run_rounds rounds

  -- From a well-formed book any number of simulated rounds end: as many orders are submitted,
  -- each is counted as accepted or as rejected, modulo 2^64, no trade is counted, no position
  -- changes, and the book stays well formed.
  pub run_rounds_total :
      (rounds : List Round) (s : Dashboard D)
      → IsBook (terms s.store) s.store.next s.engine.order_book
      → (s' : Dashboard D) × (run_rounds rounds s ≡ some s') × AfterRounds d (length rounds) s s'
  unfolding run_rounds
  run_rounds_total [] s v = (
    s,
    refl,
    record {
      submitted = omega arith;
      decided = omega arith;
      no_trade = refl;
      positions = λ symbol. refl;
      valid = v;
    },
  )
  run_rounds_total (r ∷ rounds) s v =
      let (s', done, first) = simulation_round_lem r s v in
      let (s'', rest, after) = run_rounds_total rounds s' first.valid in
      (
        s'',
        rw (done, rest),
        record {
          submitted = omega (arith, first.submitted, after.submitted);
          decided = omega (arith, first.decided, after.decided);
          no_trade = after.no_trade ∙ first.no_trade;
          positions = λ symbol. after.positions symbol ∙ first.positions symbol;
          valid = after.valid;
        },
      )
