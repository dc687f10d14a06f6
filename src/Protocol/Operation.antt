-- ===== src/Protocol/Operation.antt =====
-- The SB_DBOP_ codes of src/protocol.h.
use barry.Prelude.{ℕ}

abbrev pub add_record : ℕ
add_record = 0x41

abbrev pub clear_database : ℕ
clear_database = 0x43

abbrev pub get_dbdb : ℕ
get_dbdb = 0x4a

abbrev pub old_get_dbdb : ℕ
old_get_dbdb = 0x4c

abbrev pub old_get_records : ℕ
old_get_records = 0x42

abbrev pub get_record_state_table : ℕ
get_record_state_table = 0x53

abbrev pub set_record_flags : ℕ
set_record_flags = 0x54

abbrev pub get_record_by_index : ℕ
get_record_by_index = 0x46

abbrev pub set_record_by_index : ℕ
set_record_by_index = 0x55

abbrev pub delete_record_by_index : ℕ
delete_record_by_index = 0x52
