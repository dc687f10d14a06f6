-- ===== src/Desktop/Records.antt =====
-- The operations of the desktop mode on single records and on the record state table.
use barry.Prelude.{
  ℕ, Bool, true, not, Option, none, some, List, [], ◌∷◌, ◌++◌, ltb, ◌==◌, if◌then◌else◌, length,
}
use barry.Protocol.Command
use barry.RecordState
use barry.RecordState.{RecordStateTable}
use barry.DatabaseDatabase.{get_db_name, get_db_number}
use barry.DbPacket
use barry.DbPacket.{
  DbPacket, DbData, Outcome, returned, raised, no_database, short_response, unexpected_command,
  no_data,
}
use barry.Desktop.{
  World, Result, Call, Built, ok, threw, ◌>>=◌, pure, throw, lift, get, packet, get_db_command,
  command, flush, check_answer,
}

-- `GetDBID`.
unfoldable pub get_db_id : List ℕ → Call ℕ
get_db_id name w = elim (get_db_number name w.dbdb) [
  | none ↦ threw no_database w
  | some id ↦ ok id w
]

-- Builds a packet with the command code and the socket, and sends it.
unfoldable pub request : (ℕ → ℕ → DbPacket) → Call DbPacket
request build = do
  cmd ← get_db_command
  w ← get
  answered ← packet (build w.socket cmd).send
  pure (build w.socket cmd)

-- What `Parse` makes of the table and the answer. It ends, so the first case is none.
abbrev pub parsed_table : RecordStateTable → List ℕ → RecordStateTable
parsed_table t response = elim (RecordState.parse t response) [ none ↦ t | some t' ↦ t' ]

-- `GetRecordStateTable`: what is in `result` when it returns or throws, and how it ends.
unfoldable pub get_record_state_table :
    ℕ → RecordStateTable → World → RecordStateTable × Result Bool
get_record_state_table db_id result w =
    elim (request (λ s c. DbPacket.get_record_state_table s c db_id) w) [
      | threw e v ↦ (RecordState.clear result, threw e v)
      | ok p v ↦ (parsed_table (RecordState.clear result) v.response, flush v)
    ]

-- What is sent of a record that was built, and the checks of the answer: `AddRecord` of the packet
-- and the code behind it, in `AddRecord` and in the loop of `SaveDatabase`.
unfoldable pub add_built : ℕ → Built → Call Bool
add_built db_id b = do
  p ← request (λ s c. DbPacket.add_record s c db_id b.rec_type b.unique_id b.bytes)
  check_answer

-- `AddRecord`, with what `BuildRecord` of the builder ends with: `none` where it has no data.
unfoldable pub add_record : ℕ → Option (Outcome Built) → Call Bool
add_record db_id build = elim build [
  | none ↦ pure true
  | some built ↦ do b ← lift built; add_built db_id b
]

-- The name of the database in `GetRecord`: empty where the list has none.
abbrev pub name_or_empty : Option (List ℕ) → List ℕ
name_or_empty none = []
name_or_empty (some name) = name

abbrev pub give_parser : Option DbData → Call Bool
give_parser none w = ok true w
give_parser (some d) w = ok true (record w { parsed = w.parsed ++ (d ∷ []) })

-- `GetRecord`.
unfoldable pub get_record : ℕ → ℕ → Call Bool
get_record db_id index = do
  p ← request (λ s c. DbPacket.get_record_by_index s c db_id index)
  w ← get
  if ltb (length w.response) 7 then throw short_response else do
    c ← command
    if not (c == Command.db_data) then throw unexpected_command else do
      d ← lift (DbPacket.parse p (name_or_empty (get_db_name db_id w.dbdb)) w.response)
      given ← give_parser d
      flush

-- `SetRecord`.
unfoldable pub set_record : ℕ → ℕ → Option (Outcome Built) → Call Bool
set_record db_id index build = elim build [
  | none ↦ throw no_data
  | some built ↦ do
    b ← lift built
    p ← request (λ s c. DbPacket.set_record_by_index s c db_id index b.bytes)
    check_answer
]

-- `ClearDirty`.
unfoldable pub clear_dirty : ℕ → ℕ → Call Bool
clear_dirty db_id index = do p ← request (λ s c. DbPacket.set_record_flags s c db_id index 0); flush

-- `DeleteRecord`.
unfoldable pub delete_record : ℕ → ℕ → Call Bool
delete_record db_id index = do
  p ← request (λ s c. DbPacket.delete_record_by_index s c db_id index)
  flush
