-- ===== src/Tests/Messages.antt =====
-- The theorems on FIX messages, the server for them and the configuration at concrete inputs.
use high_performance_trading.Base.{◌≡◌, refl, inl, true, none, some, [], ◌∷◌, arith}
use high_performance_trading.Base.Int.{ℤ, pos, eqb_ℤ}
use high_performance_trading.Base.Bytes.{codes, bytes_eq}
use high_performance_trading.Base.Bytes.Decimal.{
  print_int, stoi-print_int, print_int-Lacks, print_nat-ne-nil,
}
use high_performance_trading.Core.Types.{buy, limit, price_to_double, double_to_price}
use high_performance_trading.Network.Fix.{
  FixMessage, find_field, parse, serialize, to_order, create_new_order,
}
use high_performance_trading.Network.Fix.Tags.{soh}
use high_performance_trading.Network.Fix.Wire.{IsSendable, framed, parse-serialize}
use high_performance_trading.Network.Fix.Orders.{Survives, arrived}
use high_performance_trading.Network.Fix.Delivery.{order_over_wire}
use high_performance_trading.SimpleServer.{Session, handle_fix_message}
use high_performance_trading.SimpleServer.Answers.{Answered, handle_fix_message-Answered}
use high_performance_trading.Config.{
  trim, trim_left, trim_right, Settings, find_setting, load_from_file, save_to_file,
}
use high_performance_trading.Config.SaveLoad.{IsSavable, load_from_file-save_to_file}
use high_performance_trading.Tests.Data.{ticks, whole, whole_text, shop, book-IsBook, engine}

price-Survives : Survives whole whole_text (pos 10100)
unfolding price_to_double double_to_price
price-Survives = (
  unfold print_int in print_nat-ne-nil 10100,
  print_int-Lacks (pos 10100) soh (omega arith) (inl (omega arith)),
  (pos 10100, stoi-print_int (pos 10100) (omega arith) (omega arith), refl),
)

order_over_wire_example :
    (r : FixMessage) × (parse
        (serialize (create_new_order whole whole_text 7 "AAPL" buy limit 100 (pos 10100)))
      ≡ some r)
    × (to_order whole whole_text r 9
        ≡ some (some (arrived whole whole_text 7 "AAPL" buy limit 100 (pos 10100) 9)))
order_over_wire_example =
    order_over_wire whole whole_text 7 "AAPL" buy limit 100 (pos 10100) 9 (omega arith)
      (omega arith) (omega arith) (omega arith) (λ _. price-Survives)

heartbeat : FixMessage
heartbeat = (pos 35, codes "0") ∷ (pos 49, codes "ME") ∷ []

heartbeat-IsSendable : IsSendable heartbeat
unfolding heartbeat find_field eqb_ℤ
heartbeat-IsSendable = (omega arith, omega arith, refl, (omega arith, omega arith, refl, tt))

parse-serialize_example :
    (r : FixMessage) × (parse (serialize heartbeat) ≡ some r)
    × ((tag : ℤ) → find_field tag r ≡ framed tag heartbeat)
parse-serialize_example = parse-serialize heartbeat heartbeat-IsSendable

-- One client is connected.
abbrev session : Session ℤ
session = record {
  store = shop;
  engine = engine;
  server = record {
    running = true;
    server_socket = some 3;
    accepting = true;
    clients = 5 ∷ [];
    handlers = 5 ∷ [];
    closed = [];
    has_callback = true;
    delivered = [];
  };
  sent = [];
  errors = 0;
}

handle_fix_message-Answered_example :
    Answered whole whole_text
      (λ b. codes "book")
      (arrived whole whole_text 7 "AAPL" buy limit 100 (pos 10100) 9)
      5
      session
      (handle_fix_message whole whole_text
        (λ b. codes "book")
        (serialize (create_new_order whole whole_text 7 "AAPL" buy limit 100 (pos 10100)))
        5
        9
        ticks
        session)
handle_fix_message-Answered_example =
    handle_fix_message-Answered whole whole_text (λ b. codes "book") session book-IsBook 7 "AAPL"
      buy limit 100 (pos 10100) 5 9 ticks (omega arith) (omega arith) (omega arith) (omega arith)
      (λ _. price-Survives)

settings : Settings
settings = (codes "dashboard.port", codes "8080") ∷ (codes "mode", codes "paper trading") ∷ []

settings-IsSavable : IsSavable settings
unfolding settings find_setting trim trim_left trim_right bytes_eq
settings-IsSavable = (
  (refl, omega arith, omega arith, omega arith),
  (refl, omega arith),
  refl,
  ((refl, omega arith, omega arith, omega arith), (refl, omega arith), refl, tt),
)

load_from_file-save_to_file_example :
    let (file, written) = save_to_file true none settings in
    (written ≡ true)
    × ((load_from_file file []).1 ≡ true)
    × (find_setting (codes "mode") (load_from_file file []).0
        ≡ (elim (find_setting (codes "mode") settings) [
          | none ↦ find_setting (codes "mode") []
          | some v ↦ some v
        ]))
load_from_file-save_to_file_example =
    load_from_file-save_to_file settings [] none settings-IsSavable (codes "mode")
