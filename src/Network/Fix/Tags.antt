-- ===== src/Network/Fix/Tags.antt =====
-- The constants of the class FIXMessage: tags of fields, types of messages and the delimiter.
use high_performance_trading.Base.{ℕ}
use high_performance_trading.Base.Int.{ℤ, pos}

abbrev pub tag_begin_string : ℤ
tag_begin_string = pos 8

abbrev pub tag_body_length : ℤ
tag_body_length = pos 9

abbrev pub tag_msg_type : ℤ
tag_msg_type = pos 35

abbrev pub tag_checksum : ℤ
tag_checksum = pos 10

abbrev pub tag_clord_id : ℤ
tag_clord_id = pos 11

abbrev pub tag_symbol : ℤ
tag_symbol = pos 55

abbrev pub tag_side : ℤ
tag_side = pos 54

abbrev pub tag_order_qty : ℤ
tag_order_qty = pos 38

abbrev pub tag_ord_type : ℤ
tag_ord_type = pos 40

abbrev pub tag_price : ℤ
tag_price = pos 44

abbrev pub tag_exec_type : ℤ
tag_exec_type = pos 150

abbrev pub tag_order_id : ℤ
tag_order_id = pos 37

abbrev pub tag_exec_id : ℤ
tag_exec_id = pos 17

abbrev pub tag_last_px : ℤ
tag_last_px = pos 31

abbrev pub tag_last_qty : ℤ
tag_last_qty = pos 32

abbrev pub tag_cum_qty : ℤ
tag_cum_qty = pos 14

abbrev pub tag_leaves_qty : ℤ
tag_leaves_qty = pos 151

abbrev pub msg_new_order : ℕ
msg_new_order = b'D'

abbrev pub msg_exec_report : ℕ
msg_exec_report = b'8'

abbrev pub soh : ℕ
soh = 1
