-- ===== src/Desktop/Opening.antt =====
-- `OnOpen`: the command table and the list of the databases.
use barry.Prelude.{
  ℕ, Bool, true, ◌&&◌, Option, none, some, List, [], ◌∷◌, ltb, ◌==◌, if◌then◌else◌, ◌++◌,
}
use barry.Protocol.{u16_bytes, command_field, size_field}
use barry.Protocol.Command
use barry.CommandTable
use barry.DatabaseDatabase
use barry.DbPacket
use barry.Desktop.{
  World, Result, Call, ok, threw, packet, next_record_packet, get_db_command, until_done, ◌>>=◌,
  get,
}

-- `rawCommand`, with the socket that the socket class puts in front.
abbrev pub raw_command : ℕ → List ℕ
raw_command socket = u16_bytes socket ++ (0x0a ∷ 0 ∷ 0x40 ∷ 0 ∷ 0 ∷ 1 ∷ 0 ∷ 0 ∷ [])

-- What becomes of the answer of `NextRecord`. `parse` ends, so the first case is none.
unfoldable pub store_table : World → World
store_table w =
    if command_field w.response == Command.db_data && ltb 10 (size_field w.response)
    then record w {
      command_table = elim (CommandTable.parse [] w.response 6) [ none ↦ [] | some table ↦ table ];
    }
    else w

-- The loop of `LoadCommandTable` over the answers.
unfoldable pub table_loop : List (Option (List ℕ)) → Call Bool
table_loop [] w =
    if command_field w.response == Command.db_done
    then ok true w
    else packet (next_record_packet w.socket) (record w { answers = [] })
table_loop (answer ∷ answers) w =
    let rest =
      elim (packet (next_record_packet w.socket) (record w { answers = answer ∷ answers }))
        as (λ r. Result Bool) [
          | ok u w' ↦ table_loop answers (store_table w')
          | threw e w' ↦ threw e w'
        ] in
    if command_field w.response == Command.db_done then ok true w else rest

unfoldable pub load_command_table : Call Bool
load_command_table = do
  w ← get
  answered ← packet (raw_command w.socket)
  v ← get
  table_loop v.answers

-- The body of the loop of `LoadDBDB` before it asks for more.
unfoldable pub store_dbdb : World → World
store_dbdb w =
    if command_field w.response == Command.db_data
    then record w {
      dbdb = elim (DatabaseDatabase.parse [] w.response) [ none ↦ [] | some dbdb ↦ dbdb ];
    }
    else w

unfoldable pub load_dbdb : Call Bool
load_dbdb = do
  cmd ← get_db_command
  w ← get
  answered ← packet (DbPacket.get_dbdb w.socket cmd).send
  v ← get
  until_done store_dbdb v.answers

-- `OnOpen`.
unfoldable pub on_open : Call Bool
on_open = do loaded ← load_command_table; load_dbdb
