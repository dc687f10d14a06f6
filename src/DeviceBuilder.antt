-- ===== src/DeviceBuilder.antt =====
-- The class DeviceBuilder of src/m_desktop.cc, which fetches records from databases of a device, and
-- the pipe that gives them to a parser, src/pipe.cc.
--
-- `m_current` is its position in the list. Add does not restart the builder, as in the source, so
-- the position is a valid iterator only after Restart.
use barry.Prelude.{
  ℕ, zero, suc, Bool, true, false, not, Option, none, some, List, [], ◌∷◌, ◌++◌, ◌==◌,
  if◌then◌else◌, length, map,
}
use barry.DatabaseDatabase.{Database}
use barry.DbPacket.{DbData}
use barry.Desktop.{World, Result, Call, ok, threw}
use barry.Desktop.Loading.{DbLoader, Loaded, new_loader, start_db_load, get_next_record, give}
use barry.Desktop.Records.{get_db_id}

pub record DbLabel : Type 0 where
  pub id : ℕ
  pub name : List ℕ

pub record DeviceBuilder : Type 0 where
  pub db_ids : List DbLabel
  pub current : ℕ
  pub started : Bool
  pub loader : DbLoader

abbrev pub restart : DeviceBuilder → DeviceBuilder
restart b = record b { current = 0; started = false }

abbrev pub new_builder : DeviceBuilder
new_builder = record { db_ids = []; current = 0; started = false; loader = new_loader }

-- `Add` of a name: false where GetDBID throws.
unfoldable pub add_name : List ℕ → DeviceBuilder → World → DeviceBuilder × Bool
add_name name b w = elim (get_db_id name w) [
  | ok id v ↦ (record b { db_ids = b.db_ids ++ (record { id = id; name = name } ∷ []) }, true)
  | threw e v ↦ (b, false)
]

-- `Add` of a list of databases.
unfoldable pub add_all : List Database → DeviceBuilder → DeviceBuilder
add_all dbs b = record b {
  db_ids = b.db_ids ++ map (λ (db : Database). record { id = db.number; name = db.name }) dbs;
}

unfoldable pub end_of_file : DeviceBuilder → Bool
end_of_file b = b.current == length b.db_ids

-- What a call leaves: the builder, the data, and whether there is a record.
pub record Fetched : Type 0 where
  pub builder : DeviceBuilder
  pub record_data : DbData
  pub found : Bool

-- The builder after a call of its loader, with the name of the database where there is a record.
abbrev pub fetched : DeviceBuilder → List ℕ → Result Loaded → Result Fetched
fetched b name (threw e w) = threw e w
fetched b name (ok r w) =
    ok
      (record {
        builder = record b { loader = r.loader };
        record_data = if r.found then record r.record_data { db_name = name } else r.record_data;
        found = r.found;
      })
      w

abbrev pub nothing : DeviceBuilder → DbData → Call Fetched
nothing b d = ok (record { builder = b; record_data = d; found = false })

abbrev pub label_at : List DbLabel → ℕ → Option DbLabel
label_at [] i = none
label_at (l ∷ ls) zero = some l
label_at (l ∷ ls) (suc i) = label_at ls i

-- `StartDBLoad` of the current database. There is one wherever this is called.
abbrev pub start_current : DeviceBuilder → DbData → Option DbLabel → Call Fetched
start_current b d none = nothing b d
start_current b d (some l) = λ w. fetched b l.name (start_db_load b.loader l.id d w)

abbrev pub name_at : Option DbLabel → List ℕ
name_at none = []
name_at (some l) = l.name

-- `++m_current`, and what follows it.
abbrev pub advance : DeviceBuilder → DbData → Call Fetched
advance b d w =
    let next : DeviceBuilder = record b { current = suc b.current } in
    if suc b.current == length b.db_ids
    then nothing next d w
    else start_current next d (label_at b.db_ids (suc b.current)) w

-- `FetchRecord` where there is a database.
abbrev pub fetch_from : DeviceBuilder → DbData → Call Fetched
fetch_from b d w =
    if not b.started
    then start_current (record b { current = 0; started = true }) d (label_at b.db_ids 0) w
    else if b.loader.loading
    then fetched b (name_at (label_at b.db_ids b.current)) (get_next_record b.loader d w)
    else if b.current == length b.db_ids
    then nothing b d w
    else advance b d w

-- `FetchRecord`.
unfoldable pub fetch_record : DeviceBuilder → DbData → Call Fetched
fetch_record b d w = if length b.db_ids == 0 then nothing b d w else fetch_from b d w

-- What follows a call of `FetchRecord`: the record goes to the parser, and `rest` is the next turn.
abbrev pub series_on :
    Result Fetched → (Fetched → World → Option (Result Fetched)) → Option (Result Fetched)
series_on (threw e v) rest = some (threw e v)
series_on (ok f v) rest = if f.found then rest f (give f.record_data v) else some (ok f v)

-- `PumpSeries`: `PumpEntry` until it returns false. `none`: the fuel ran out.
unfoldable pub pump_series : ℕ → DeviceBuilder → DbData → World → Option (Result Fetched)
unfolding fetch_record
pump_series zero b d w = none
pump_series (suc fuel) b d w =
    series_on (fetch_record b d w) (λ f. pump_series fuel f.builder f.record_data)

abbrev pub file_on :
    Option (Result Fetched) → (Fetched → World → Option (Result Bool)) → Option (Result Bool)
file_on none rest = none
file_on (some (threw e v)) rest = some (threw e v)
file_on (some (ok f v)) rest = rest f v

-- `PumpFile`.
unfoldable pub pump_file : ℕ → DeviceBuilder → DbData → World → Option (Result Bool)
unfolding end_of_file pump_series
pump_file zero b d w = none
pump_file (suc fuel) b d w =
    let rest =
      file_on (pump_series (suc fuel) b d w) (λ f. pump_file fuel f.builder f.record_data) in
    if end_of_file b then some (ok true w) else rest
