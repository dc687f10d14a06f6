-- ===== src/Fields.antt =====
-- The fields of a record: ParseCommonFields of src/record-internal.h, the field builders and
-- ParseFieldString of src/record.cc, and what every record's ParseField does before it looks at
-- the type, as in src/r_memo.cc.
--
-- A string is the list of its bytes. The converter of a record's strings, IConverter, stands on
-- the iconv library, so it is a pair of functions here, and absent where the pointer is null.
pub mod Categories
pub mod Reading
pub mod Building
pub mod Text
pub mod Sharing
pub mod Recurring
pub mod TimeReading
pub mod AddressReading
pub mod Address
use barry.Data.{Data, get_buffer, write, zap, release_buffer, to_option}
use barry.FieldLoop.{fields_of}
use barry.Protocol.{get_u8, get_u16, u16_bytes, u32_bytes}
use barry.Recurrence.{time2min, u32_of}
use barry.Prelude.{
  ℕ, zero, suc, ◌+◌, ◌/◌, ◌%◌, ◌^◌, Option, none, some, List, [], ◌∷◌, ◌++◌, leb, ltb, ◌==◌,
  if◌then◌else◌, length, take, drop, ℤ, int_of, ◌>>=◌,
}

pub record CommonField : Type 0 where
  pub type : ℕ
  pub raw : List ℕ

-- `sizeof(CommonField)` without its union.
abbrev pub common_field_header_size : ℕ
common_field_header_size = 3

-- The bytes of a field before `rest`: what `BuildField` of a buffer stores. The size of the buffer
-- is written as an uint16_t.
unfoldable pub encode : CommonField → List ℕ → List ℕ
encode f rest = u16_bytes (length f.raw) ++ (f.type % 256 ∷ (f.raw ++ rest))

-- The bytes of fields, one behind the other.
abbrev pub bytes_of : List CommonField → List ℕ
bytes_of fs = fields_of encode fs []

-- `BuildField`: the buffer, and the new `size`. `m_dataSize` is not that size, so a block that grows
-- in `GetBuffer` does not keep the fields before. `none`: an access left the block.
unfoldable pub build_field : Data → ℕ → CommonField → Option (Data × ℕ)
build_field d size f = do
  d' ← get_buffer d (size + (common_field_header_size + length f.raw))
  block ← write d'.mem_block (d'.data_start + size) (encode f [])
  some (record d' { mem_block = block }, size + (common_field_header_size + length f.raw))

unfoldable pub build_each : Data → ℕ → List CommonField → Option (Data × ℕ)
build_each d size [] = some (d, size)
build_each d size (f ∷ fs) = do (d', n) ← build_field d size f; build_each d' n fs

-- `BuildFields` of a record: `Zap`, its fields, and `ReleaseBuffer`.
unfoldable pub build_fields : Data → ℕ → List CommonField → Option Data
build_fields d offset fs = do
  (d', size) ← build_each (zap d) offset fs
  to_option (release_buffer d' (int_of size))

-- `BuildField` of a char or a byte, of an uint16_t, of an uint32_t and of an uint64_t. The last
-- two write their size with `htobl`, which is the number itself on a little endian host.
unfoldable pub u8_field : ℕ → ℕ → CommonField
u8_field type c = record { type = type; raw = c % 256 ∷ [] }

unfoldable pub u16_field : ℕ → ℕ → CommonField
u16_field type value = record { type = type; raw = u16_bytes value }

unfoldable pub u32_field : ℕ → ℕ → CommonField
u32_field type value = record { type = type; raw = u32_bytes value }

unfoldable pub u64_field : ℕ → ℕ → CommonField
u64_field type value = record {
  type = type;
  raw = u32_bytes (value % 2 ^ 32) ++ u32_bytes (value / 2 ^ 32);
}

-- `BuildField` of a string, with its null terminator.
unfoldable pub string_field : ℕ → List ℕ → CommonField
string_field type str = record { type = type; raw = str ++ (0 ∷ []) }

unfoldable pub time_field : ℕ → ℤ → CommonField
unfolding u32_field
time_field type t = u32_field type (u32_of (time2min t))

-- How many bytes stay when the null bytes at the end go.
abbrev pub last_kept : List ℕ → ℕ → ℕ
last_kept str zero = zero
last_kept str (suc maxlen) = if get_u8 str maxlen == 0 then last_kept str maxlen else suc maxlen

unfoldable pub parse_field_string : List ℕ → List ℕ
parse_field_string str = take (last_kept str (length str)) str

pub record IConverter : Type 0 where
  pub from_bb : List ℕ → List ℕ
  pub to_bb : List ℕ → List ℕ

abbrev pub from_device : Option IConverter → List ℕ → List ℕ
from_device none s = s
from_device (some ic) s = ic.from_bb s

abbrev pub to_device : Option IConverter → List ℕ → List ℕ
to_device none s = s
to_device (some ic) s = ic.to_bb s

-- The field of a string of the record, which is written only where the string is not empty.
abbrev pub text_field : Option IConverter → ℕ → List ℕ → List CommonField
text_field ic type [] = []
text_field ic type (c ∷ s) = string_field type (to_device ic (c ∷ s)) ∷ []

unfoldable pub parse_text : Option IConverter → List ℕ → List ℕ
unfolding parse_field_string
parse_text ic raw = from_device ic (parse_field_string raw)

-- Why a record throws `Error` at a field.
pub data FieldError : Type 0 where
  wrong_record_type out_of_bounds not_enough_data unknown_recurrence : FieldError
  -- The code reads outside the bytes of the field, and what it finds there is not known.
  outside_field : FieldError

pub data Taken {ℓ} (S : Type ℓ) : Type ℓ where
  took : S → Taken S
  threw : FieldError → Taken S

-- The record after the fields, with how far the pointer moved.
pub data Parsed {ℓ} (S : Type ℓ) : Type ℓ where
  parsed : S → ℕ → Parsed S
  failed : FieldError → Parsed S
  out_of_fuel : Parsed S

module _ {ℓ} {S : Type ℓ} where
  abbrev pub then_take : Taken S → (S → Taken S) → Taken S
  then_take (took s) k = k s
  then_take (threw e) k = threw e

  abbrev pub moved : ℕ → Parsed S → Parsed S
  moved n (parsed s m) = parsed s (n + m)
  moved n (failed e) = failed e
  moved n out_of_fuel = out_of_fuel

  abbrev pub then_parse : Taken S → (S → Parsed S) → Parsed S
  then_parse (took s) k = k s
  then_parse (threw e) k = failed e

  module _ (take_field : S → ℕ → List ℕ → Taken S) where
    -- `ParseField`: the record after the field at the front of the bytes up to the end. The
    -- pointer moves by the header and `get_u16 bytes 0`, whatever becomes of the field.
    unfoldable pub parse_field : S → List ℕ → Taken S
    parse_field s bytes =
        let size = get_u16 bytes 0 in
        if ltb (length bytes) (common_field_header_size + size)
        then took s
        else if size == 0
        then took s
        else take_field s (get_u8 bytes 2) (take size (drop common_field_header_size bytes))

    -- The pointer can pass the end by what the size of the last field says.
    unfoldable pub parse_common_fields : ℕ → S → List ℕ → Parsed S
    unfolding parse_field
    parse_common_fields zero s bytes = out_of_fuel
    parse_common_fields (suc fuel) s bytes =
        let step = common_field_header_size + get_u16 bytes 0 in
        let rest : S → Parsed S =
          λ s'. moved step (parse_common_fields fuel s' (drop step bytes)) in
        if ltb common_field_header_size (length bytes)
        then then_parse (parse_field s bytes) rest
        else parsed s 0
