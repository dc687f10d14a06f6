-- ===== src/Examples/Databases.antt =====
-- Examples on the lists that the device describes itself with, the packets that ask for databases,
-- and the recurrence of an appointment.
use barry.Prelude.{arith, ℕ, ◌≡◌, refl, true, false, some, List, [], ◌∷◌, ◌++◌, replicate, All, pos}
use barry.CommandTable
use barry.CommandTable.Parsing
use barry.CommandTable.Parsing.{IsCommand, parse-command_fields}
use barry.DatabaseDatabase
use barry.DatabaseDatabase.{old_dbdb_field, dbdb_field}
use barry.DatabaseDatabase.Field
use barry.DatabaseDatabase.Field.{Field, IsField}
use barry.DatabaseDatabase.Parsing.{databases_of, parse-database_fields}
use barry.FieldLoop.{fields_of}
use barry.DbPacket.Requests
use barry.DbPacket.Requests.{read, build, read-build}
use barry.Recurrence.{RecurBase, cleared, year_by_day, build_recurrence_data}
use barry.Recurrence.Rules.{read_rule, parse_built, IsRule}
use barry.Recurrence.Parsing.{whole_minutes, parse-build}

abbrev two_commands : List CommandTable.Command
two_commands = record { code = 7; name = 65 ∷ 66 ∷ [] } ∷ record { code = 9; name = 67 ∷ [] } ∷ []

two_commands-IsCommand : All IsCommand two_commands
two_commands-IsCommand = (
  record { name_fits = omega arith; named = omega arith },
  (record { name_fits = omega arith; named = omega arith }, tt),
)

-- The second byte of the last field is missing.
two_commands_parsed :
    CommandTable.parse []
      (replicate 7 0 ++ fields_of CommandTable.Parsing.field_of two_commands (4 ∷ []))
      7
    ≡ some ([] ++ two_commands)
two_commands_parsed =
    parse-command_fields [] (replicate 7 0) two_commands (4 ∷ []) two_commands-IsCommand
      (omega arith)

abbrev address_book : Field
address_book = record {
  database = record { number = 300; record_count = 70000; name = 65 ∷ 100 ∷ [] };
  unknown1 = 1;
  db_size = 5;
  unknown2 = 0;
}

address_book-IsField : IsField dbdb_field address_book
address_book-IsField = record {
  number_fits = omega arith;
  count_fits = omega arith;
  name_fits = omega arith;
}

abbrev dbdb_header : List ℕ
dbdb_header = 0 ∷ 0 ∷ 0 ∷ 0 ∷ 0x40 ∷ 0 ∷ 0x4a ∷ replicate 5 0

-- A field that is cut off within its name.
abbrev cut_field : List ℕ
cut_field = replicate 13 0 ++ (9 ∷ 0 ∷ 0 ∷ 65 ∷ 66 ∷ 67 ∷ [])

parse-database_fields_example :
    DatabaseDatabase.parse [] (
      dbdb_header
      ++ fields_of (DatabaseDatabase.Field.field_of dbdb_field) (address_book ∷ []) cut_field)
    ≡ some ([] ++ databases_of (address_book ∷ []))
parse-database_fields_example =
    parse-database_fields dbdb_field [] dbdb_header (address_book ∷ []) cut_field refl refl
      (address_book-IsField, tt) (omega arith)

read-build_example :
    read 300 5 (build 300 5 (Requests.add_record 9 1 70000 (1 ∷ 2 ∷ []))).send
    ≡ some (Requests.add_record 9 1 70000 (1 ∷ 2 ∷ []))
read-build_example =
    read-build 300 5 (Requests.add_record 9 1 70000 (1 ∷ 2 ∷ [])) (omega arith) (omega arith)
      (omega arith, omega arith, omega arith, omega arith)

-- Each second third Wednesday of May, until some time in 2009.
abbrev yearly : RecurBase
yearly = record {
  recurring = true;
  recurring_type = year_by_day;
  interval = 2;
  recurring_end_time = pos 1234567890;
  perpetual = false;
  day_of_week = 3;
  week_of_month = 3;
  day_of_month = 0;
  month_of_year = 5;
  week_days = 0;
}

yearly-IsRule : IsRule yearly
yearly-IsRule = record {
  recurs = refl;
  some_interval = omega arith;
  interval_fits = omega arith;
  day_of_week_fits = omega arith;
  week_of_month_fits = omega arith;
  day_of_month_fits = omega arith;
  month_of_year_fits = omega arith;
  ends = (omega arith, omega arith);
}

parse-build_example :
    read_rule (parse_built cleared (build_recurrence_data (pos 1000000000) yearly))
    ≡ some (whole_minutes yearly)
parse-build_example = parse-build (pos 1000000000) yearly cleared yearly-IsRule
