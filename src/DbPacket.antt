-- ===== src/DbPacket.antt =====
-- The class DBPacket of src/packet.cc: the requests to the device's databases, and what the answers
-- say.
--
-- A request is the list of its bytes, with the socket that the socket class puts in front. The
-- data of a record is its list of bytes; its block is valid, so the whole header is written.
pub mod Requests
use barry.Prelude.{
  ℕ, ◌+◌, ◌%◌, Bool, true, false, ◌||◌, Option, none, some, List, [], ◌∷◌, ◌++◌, ◌==◌,
  if◌then◌else◌, length, replicate,
}
use barry.Protocol.{
  packet_header_size, get_u8, get_u32, u16_bytes, u32_bytes, check_size, command_field,
}
use barry.Protocol.Command
use barry.Protocol.Operation

-- What the requests, the desktop mode and its parsers throw.
pub data Error : Type 0 where
  -- `BadSize` of `CheckSize`.
  bad_size : Error
  -- The answer has no return code.
  wrong_response : Error
  -- No command has the name, or no database.
  no_command no_database : Error
  -- The answers that a call does not expect.
  short_response unexpected_command : Error
  return_code_error : ℕ → ℕ → Error
  -- std::logic_error: the builder has no data, the offset lies behind the data, no such mode.
  no_data bad_offset unknown_mode : Error
  -- No exception: the header is written behind the end of the data.
  overrun : Error
  -- No exception: the search for a new record id goes on for ever.
  no_free_id : Error
  -- What the socket throws.
  socket_error : Error

pub data Outcome {ℓ} (A : Type ℓ) : Type ℓ where
  returned : A → Outcome A
  raised : Error → Outcome A

-- The send buffer and `m_last_dbop`.
pub record DbPacket : Type 0 where
  pub send : List ℕ
  pub last_dbop : ℕ

-- The header that the requests share, and what follows the operation.
abbrev pub request : ℕ → ℕ → ℕ → List ℕ → DbPacket
request socket table_cmd operation rest = record {
  send =
      u16_bytes socket
      ++ (u16_bytes (7 + length rest) ++ (Command.db_data ∷ table_cmd % 256 ∷ operation ∷ rest));
  last_dbop = operation;
}

module _ (socket table_cmd : ℕ) where
  unfoldable pub clear_database : ℕ → DbPacket
  clear_database db_id = request socket table_cmd Operation.clear_database (u16_bytes db_id)

  unfoldable pub get_dbdb : DbPacket
  get_dbdb = request socket table_cmd Operation.old_get_dbdb []

  unfoldable pub get_record_state_table : ℕ → DbPacket
  get_record_state_table db_id =
      request socket table_cmd Operation.get_record_state_table (u16_bytes db_id)

  unfoldable pub set_record_flags : ℕ → ℕ → ℕ → DbPacket
  set_record_flags db_id index flag1 =
      request socket table_cmd Operation.set_record_flags
        (u16_bytes db_id ++ (flag1 % 256 ∷ (u16_bytes index ++ replicate 5 0)))

  unfoldable pub delete_record_by_index : ℕ → ℕ → DbPacket
  delete_record_by_index db_id index =
      request socket table_cmd Operation.delete_record_by_index (u16_bytes db_id ++ u16_bytes index)

  unfoldable pub get_record_by_index : ℕ → ℕ → DbPacket
  get_record_by_index db_id index =
      request socket table_cmd Operation.get_record_by_index (u16_bytes db_id ++ u16_bytes index)

  -- With the data that the builder put behind the header.
  unfoldable pub set_record_by_index : ℕ → ℕ → List ℕ → DbPacket
  set_record_by_index db_id index built =
      request socket table_cmd Operation.set_record_by_index
        (u16_bytes db_id ++ (0 ∷ (u16_bytes index ++ built)))

  unfoldable pub get_records : ℕ → DbPacket
  get_records db_id = request socket table_cmd Operation.old_get_records (u16_bytes db_id)

  -- With the type, the id and the data that the builder gave.
  unfoldable pub add_record : ℕ → ℕ → ℕ → List ℕ → DbPacket
  add_record db_id rec_type unique_id built =
      request socket table_cmd Operation.add_record
        (u16_bytes db_id ++ (rec_type % 256 ∷ (u32_bytes unique_id ++ (1 ∷ built))))

-- `Packet::Command`.
unfoldable pub packet_command : List ℕ → Outcome ℕ
packet_command receive =
    if check_size receive packet_header_size
    then returned (command_field receive)
    else raised bad_size

-- `ReturnCode`. The size with the code is 7.
unfoldable pub return_code : List ℕ → Outcome ℕ
unfolding packet_command
return_code receive = elim (packet_command receive) [
  | raised e ↦ raised e
  | returned command ↦
      if command == Command.db_done
      then if check_size receive 7 then returned (get_u8 receive 6) else raised bad_size
      else raised wrong_response
]

-- `DBOperation`.
unfoldable pub db_operation : List ℕ → Outcome ℕ
db_operation receive = if check_size receive 7 then returned (get_u8 receive 6) else raised bad_size

pub data RecordFormatVersion : Type 0 where
  rec_version_1 rec_version_2 : RecordFormatVersion

-- The class DBData: the meta data of a record, and its block.
pub record DbData : Type 0 where
  pub version : RecordFormatVersion
  pub db_name : List ℕ
  pub rec_type : ℕ
  pub unique_id : ℕ
  pub offset : ℕ
  pub block : List ℕ

-- `SB_PACKET_RESPONSE_HEADER_SIZE + DBR_OLD_TAGGED_RECORD_HEADER_SIZE`.
abbrev pub tagged_offset : ℕ
tagged_offset = 15

-- The record in a response.
unfoldable pub tagged_record : List ℕ → List ℕ → DbData
tagged_record db_name receive = record {
  version = rec_version_1;
  db_name = db_name;
  rec_type = get_u8 receive 7;
  unique_id = get_u32 receive 10;
  offset = tagged_offset;
  block = receive;
}

abbrev pub is_tagged : ℕ → Bool
is_tagged dbop = dbop == Operation.old_get_records || dbop == Operation.get_record_by_index

-- `Parse`: the record that the parser gets, or `none` where the packet is not recognized.
unfoldable pub parse : DbPacket → List ℕ → List ℕ → Outcome (Option DbData)
unfolding tagged_record
parse packet db_name receive =
    if is_tagged packet.last_dbop
    then if check_size receive tagged_offset
      then returned (some (tagged_record db_name receive))
      else raised bad_size
    else returned none

-- `ParseMeta` of the record with this block.
unfoldable pub parse_meta : DbPacket → DbData → Outcome DbData
parse_meta packet d =
    if is_tagged packet.last_dbop
    then if check_size d.block tagged_offset
      then returned (record d {
        version = rec_version_1;
        rec_type = get_u8 d.block 7;
        unique_id = get_u32 d.block 10;
        offset = tagged_offset;
      })
      else raised bad_size
    else returned d
