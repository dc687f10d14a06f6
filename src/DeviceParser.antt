-- ===== src/DeviceParser.antt =====
-- The class DeviceParser of src/m_desktop.cc: it writes the records that it is given to the device.
--
-- A call leaves the parser, and the result of what it asked the desktop mode for. `decide` is the
-- virtual function `DecideWrite`.
pub mod Calls
pub mod Keeps
use barry.Prelude.{ℕ, Bool, true, false, Option, none, some, List, [], if◌then◌else◌}
use barry.CommandTable.{same_name}
use barry.RecordState
use barry.RecordState.{RecordStateTable}
use barry.DatabaseDatabase.{get_db_number}
use barry.DbPacket.{DbData, unknown_mode, no_free_id}
use barry.Desktop.{World, Result, ok, threw, build_record}
use barry.Desktop.Records.{add_record, set_record, get_record_state_table}
use barry.Desktop.Saving.{clear_database}

pub data WriteMode : Type 0 where
  erase_all_write_all individual_overwrite add_but_no_overwrite add_with_new_id : WriteMode
  decide_by_callback drop_record : WriteMode

pub record DeviceParser : Type 0 where
  pub mode : WriteMode
  pub current_db : List ℕ
  pub current_dbid : ℕ
  pub rstate : RecordStateTable

-- The offsets that `AddRecord` and `SetRecordByIndex` ask the builder for.
abbrev pub tag_upload_offset : ℕ
tag_upload_offset = 15

abbrev pub index_upload_offset : ℕ
index_upload_offset = 12

-- What the mode is for a record.
abbrev pub mode_for : (DbData → WriteMode) → WriteMode → DbData → WriteMode
mode_for decide decide_by_callback d = decide d
mode_for decide erase_all_write_all d = erase_all_write_all
mode_for decide individual_overwrite d = individual_overwrite
mode_for decide add_but_no_overwrite d = add_but_no_overwrite
mode_for decide add_with_new_id d = add_with_new_id
mode_for decide drop_record d = drop_record

abbrev pub add : DeviceParser → DbData → World → DeviceParser × Result Bool
add p d w = (p, add_record p.current_dbid (some (build_record d tag_upload_offset)) w)

-- The `switch` of `WriteNext`.
unfoldable pub write_by : WriteMode → DeviceParser → DbData → World → DeviceParser × Result Bool
write_by erase_all_write_all p d w = add p d w
write_by individual_overwrite p d w = elim (RecordState.get_index d.unique_id p.rstate.state_map) [
  | some index ↦ (p, set_record p.current_dbid index (some (build_record d index_upload_offset)) w)
  | none ↦ add p d w
]
write_by add_but_no_overwrite p d w = elim (RecordState.get_index d.unique_id p.rstate.state_map) [
  | some index ↦ (p, ok true w)
  | none ↦ add p d w
]
write_by add_with_new_id p d w = elim (RecordState.make_new_record_id p.rstate) [
  | none ↦ (p, threw no_free_id w)
  | some (id, rstate) ↦ add (record p { rstate = rstate }) (record d { unique_id = id }) w
]
write_by drop_record p d w = (p, ok true w)
write_by decide_by_callback p d w = (p, threw unknown_mode w)

-- `WriteNext`.
unfoldable pub write_next :
    (DbData → WriteMode) → DeviceParser → DbData → World → DeviceParser × Result Bool
write_next decide p d w = write_by (mode_for decide p.mode d) p d w

-- The `switch` of `StartDB`, where the database is in the device.
unfoldable pub start_by :
    (DbData → WriteMode) → WriteMode → DeviceParser → DbData → World → DeviceParser × Result Bool
start_by decide erase_all_write_all p d w = elim (clear_database p.current_dbid w) [
  | threw e v ↦ (p, threw e v)
  | ok u v ↦ write_next decide p d v
]
start_by decide drop_record p d w = (p, ok true w)
start_by decide decide_by_callback p d w = (p, threw unknown_mode w)
start_by decide _ p d w =
    let (rstate, result) = get_record_state_table p.current_dbid p.rstate w in
    elim result [
      | threw e v ↦ (record p { rstate = rstate }, threw e v)
      | ok u v ↦ write_next decide (record p { rstate = rstate }) d v
    ]

-- `StartDB`.
unfoldable pub start_db :
    (DbData → WriteMode) → DeviceParser → DbData → World → DeviceParser × Result Bool
start_db decide p d w =
    let q = record p { rstate = RecordState.clear p.rstate; current_db = d.db_name } in
    elim (get_db_number d.db_name w.dbdb) [
      | none ↦ (record q { current_db = []; current_dbid = 0 }, ok true w)
      | some id ↦ start_by decide (mode_for decide p.mode d) (record q { current_dbid = id }) d w
    ]

-- `ParseRecord`.
unfoldable pub parse_record :
    (DbData → WriteMode) → DeviceParser → DbData → World → DeviceParser × Result Bool
parse_record decide p d w =
    if same_name d.db_name p.current_db then write_next decide p d w else start_db decide p d w
