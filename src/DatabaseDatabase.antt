-- ===== src/DatabaseDatabase.antt =====
-- The list of the device's databases, src/r_dbdb.cc.
--
-- The template `ParseField` is a function of the layout of its field type. Sorting and the text
-- output are not modelled.
pub mod Field
pub mod Parsing
use barry.Prelude.{
  ℕ, ◌+◌, ◌-◌, ◌%◌, ◌^◌, Bool, Option, none, some, List, [], ◌∷◌, ◌++◌, ltb, leb, ◌==◌,
  if◌then◌else◌, length, take, drop,
}
use barry.FieldLoop.{field_loop}
use barry.Protocol.{get_u8, get_u16, get_u32}
use barry.Protocol.Operation
use barry.CommandTable.{same_name}

pub record Database : Type 0 where
  pub number : ℕ
  pub record_count : ℕ
  pub name : List ℕ

-- The two field types: `sizeof(FieldType) - sizeof(field->name)`, and where their parts are.
pub data FieldType : Type 0 where
  old_dbdb_field dbdb_field : FieldType

abbrev pub sizeof_less_name : FieldType → ℕ
sizeof_less_name old_dbdb_field = 13
sizeof_less_name dbdb_field = 18

abbrev pub count_at : FieldType → List ℕ → ℕ
count_at old_dbdb_field field = get_u16 field 7
count_at dbdb_field field = get_u32 field 7

abbrev pub name_size_at : FieldType → List ℕ → ℕ
name_size_at old_dbdb_field field = get_u16 field 11
name_size_at dbdb_field field = get_u16 field 13

abbrev pub name_offset : FieldType → ℕ
name_offset old_dbdb_field = 13
name_offset dbdb_field = 16

-- `ParseField`: the databases after it, and the bytes from the pointer that it returns.
unfoldable pub parse_field : FieldType → List Database → List ℕ → List Database × List ℕ
parse_field type databases begin =
    if ltb (length begin) (sizeof_less_name type + 1)
    then (databases, [])
    else let name_size = name_size_at type begin in
      if ltb (length begin) (sizeof_less_name type + name_size)
      then (databases, [])
      else if name_size == 0
      then (databases, drop name_size (drop (sizeof_less_name type) begin))
      else (
        databases
            ++ (record {
              number = get_u16 begin 0;
              record_count = count_at type begin;
              name = take (name_size - 1) (drop (name_offset type) begin);
            }
                ∷ []),
        drop name_size (drop (sizeof_less_name type) begin),
      )

-- `SB_PACKET_DBACCESS_HEADER_SIZE`, `SB_PACKET_DBDB_HEADER_SIZE` and
-- `SB_PACKET_OLD_DBDB_HEADER_SIZE`; the fields of a response begin there.
abbrev pub dbaccess_header_size : ℕ
dbaccess_header_size = 6

abbrev pub header_size : FieldType → ℕ
header_size old_dbdb_field = 9
header_size dbdb_field = 12

unfoldable pub parse_as : FieldType → List Database → List ℕ → Option (List Database)
parse_as type databases bytes =
    if ltb (header_size type) (length bytes)
    then field_loop (parse_field type) (length bytes) databases (drop (header_size type) bytes)
    else some databases

-- `Parse`. Each round ends the loop or takes 13 bytes at least, so the fuel is enough; `none` would
-- be the end of the fuel.
unfoldable pub parse : List Database → List ℕ → Option (List Database)
parse databases bytes =
    if ltb (length bytes) (dbaccess_header_size + 1)
    then some databases
    else if get_u8 bytes 6 == Operation.get_dbdb
    then parse_as dbdb_field databases bytes
    else if get_u8 bytes 6 == Operation.old_get_dbdb
    then parse_as old_dbdb_field databases bytes
    else some databases

-- The sum is an unsigned int.
unfoldable pub get_total_record_count : ℕ → List Database → ℕ
get_total_record_count sum [] = sum
get_total_record_count sum (d ∷ ds) = get_total_record_count ((sum + d.record_count) % 2 ^ 32) ds

-- `GetDBNumber`.
unfoldable pub get_db_number : List ℕ → List Database → Option ℕ
get_db_number name [] = none
get_db_number name (d ∷ ds) = if same_name d.name name then some d.number else get_db_number name ds

-- `GetDBName`.
unfoldable pub get_db_name : ℕ → List Database → Option (List ℕ)
get_db_name number [] = none
get_db_name number (d ∷ ds) = if d.number == number then some d.name else get_db_name number ds
