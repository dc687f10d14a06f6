-- ===== src/Desktop/Loading.antt =====
-- `LoadDatabase` and the class DBLoader: the records of a database, one by one.
pub mod Rounds
pub mod Collect
use barry.Prelude.{
  ℕ, zero, suc, ◌+◌, Bool, true, false, not, Option, none, some, List, [], ◌∷◌, ◌++◌, ◌==◌,
  if◌then◌else◌, length,
}
use barry.Protocol.{check_size, command_field, packet_header_size}
use barry.Protocol.Command
use barry.DatabaseDatabase.{get_db_name}
use barry.DbPacket
use barry.DbPacket.{DbPacket, DbData, Outcome, returned, raised, bad_size}
use barry.Desktop.{World, Result, Call, ok, threw, packet, next_record_packet, get_db_command}
use barry.Desktop.Records.{request}

-- `m_loading`, `m_dbName` and `m_loader->m_packet`. Its receive buffer is the block of the data,
-- and stands in the world.
pub record DbLoader : Type 0 where
  pub loading : Bool
  pub db_name : List ℕ
  pub packet : DbPacket

-- What a call leaves: the loader, the data, and whether there is a record.
pub record Loaded : Type 0 where
  pub loader : DbLoader
  pub record_data : DbData
  pub found : Bool

-- The data with the receive buffer as its block.
abbrev pub with_block : DbData → World → DbData
with_block d w = record d { block = w.response }

-- `ParseMeta`, and what both calls do where it returns.
unfoldable pub take_record : DbLoader → DbData → Call Loaded
take_record l d w = elim (DbPacket.parse_meta l.packet (with_block d w)) [
  | raised e ↦ threw e w
  | returned d' ↦ ok (record { loader = l; record_data = d'; found = true }) w
]

-- `m_loading = false; return false;`
abbrev pub no_more : DbLoader → DbData → Call Loaded
no_more l d w =
    ok
      (record {
        loader = record l { loading = false };
        record_data = with_block d w;
        found = false;
      })
      w

-- The loops of `StartDBLoad` and `GetNextRecord`, from a command that is to be looked at on, over
-- the answers: a record ends them, and so does DB_DONE, and else they ask for more.
unfoldable pub scan : DbLoader → DbData → List (Option (List ℕ)) → Call Loaded
scan l d [] w =
    if not (check_size w.response packet_header_size)
    then threw bad_size w
    else if command_field w.response == Command.db_data
    then take_record l d w
    else if command_field w.response == Command.db_done
    then no_more l d w
    else elim (packet (next_record_packet w.socket) (record w { answers = [] })) [
      | ok u w' ↦ no_more l d w'
      | threw e w' ↦ threw e w'
    ]
scan l d (answer ∷ answers) w =
    let rest =
      elim (packet (next_record_packet w.socket) (record w { answers = answer ∷ answers }))
        as (λ r. Result Loaded) [ ok u w' ↦ scan l d answers w' | threw e w' ↦ threw e w' ] in
    if not (check_size w.response packet_header_size)
    then threw bad_size w
    else if command_field w.response == Command.db_data
    then take_record l d w
    else if command_field w.response == Command.db_done
    then no_more l d w
    else rest

-- The name of the database: `GetDBName` leaves the old one where the list has none.
abbrev pub name_or : List ℕ → Option (List ℕ) → List ℕ
name_or old none = old
name_or old (some name) = name

abbrev set_db_name : List ℕ → Result Loaded → Result Loaded
set_db_name name (threw e w) = threw e w
set_db_name name (ok r w) =
    if r.found
    then ok (record r { record_data = record r.record_data { db_name = name } }) w
    else ok r w

-- `StartDBLoad`.
unfoldable pub start_db_load : DbLoader → ℕ → DbData → Call Loaded
start_db_load l db_id d w =
    let name = name_or l.db_name (get_db_name db_id w.dbdb) in
    elim (request (λ s c. DbPacket.get_records s c db_id) w) [
      | threw e w' ↦ threw e w'
      | ok p w' ↦
          set_db_name name
            (scan (record { loading = true; db_name = name; packet = p }) d w'.answers w')
    ]

-- `GetNextRecord`.
unfoldable pub get_next_record : DbLoader → DbData → Call Loaded
get_next_record l d w =
    if not l.loading
    then ok (record { loader = l; record_data = d; found = false }) w
    else elim (packet (next_record_packet w.socket) w) [
      | threw e w' ↦ threw e w'
      | ok u w' ↦ scan l d w'.answers w'
    ]

-- `parser.ParseRecord(data, m_ic)`.
abbrev pub give : DbData → World → World
give d w = record w { parsed = w.parsed ++ (d ∷ []) }

-- The loop of `LoadDatabase`. `none`: the fuel ran out.
unfoldable pub load_loop : ℕ → Loaded → World → Option (Result Bool)
load_loop zero r w = none
load_loop (suc fuel) r w =
    let rest =
      elim (get_next_record r.loader r.record_data (give r.record_data w))
        as (λ x. Option (Result Bool)) [
          | threw e w' ↦ some (threw e w')
          | ok r' w' ↦ load_loop fuel r' w'
        ] in
    if r.found then rest else some (ok true w)

-- The objects `data` and `loader` as `LoadDatabase` makes them.
abbrev pub new_data : DbData
new_data = record {
  version = DbPacket.rec_version_1;
  db_name = [];
  rec_type = 0;
  unique_id = 0;
  offset = 0;
  block = [];
}

abbrev pub new_loader : DbLoader
new_loader = record { loading = false; db_name = []; packet = record { send = []; last_dbop = 0 } }

-- `LoadDatabase`. Each round takes an answer, so the fuel is enough.
unfoldable pub load_database : ℕ → World → Option (Result Bool)
load_database db_id w = elim (start_db_load new_loader db_id new_data w) [
  | threw e w' ↦ some (threw e w')
  | ok r w' ↦ load_loop (suc (suc (length w.answers))) r w'
]
