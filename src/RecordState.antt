-- ===== src/RecordState.antt =====
-- The record state table of src/r_recordstate.cc.
--
-- `state_map` is the std::map by index, as the sorted list of `Router.Table`. `unknown2` of a state
-- is its four bytes.
pub mod Fresh
pub mod Parsing
use barry.Prelude.{
  ℕ, zero, suc, ◌+◌, ◌%◌, ◌^◌, Bool, true, false, not, ◌||◌, Option, none, some, List, [], ◌∷◌, ltb,
  leb, ◌==◌, if◌then◌else◌, length, take, drop,
}
use barry.Protocol.{get_u8, get_u16, get_u32}
use barry.Router.Table.{store}

pub record State : Type 0 where
  pub index : ℕ
  pub record_id : ℕ
  pub dirty : Bool
  pub rec_type : ℕ
  pub unknown2 : List ℕ

pub record RecordStateTable : Type 0 where
  pub state_map : List (ℕ × State)
  pub last_new_record_id : ℕ

unfoldable pub new_table : RecordStateTable
new_table = record { state_map = []; last_new_record_id = 1 }

-- `sizeof(RecordStateTableField)`.
abbrev pub field_size : ℕ
field_size = 12

-- The state that a field describes.
unfoldable pub state_of : List ℕ → State
state_of field = record {
  index = get_u16 field 1;
  record_id = get_u32 field 3;
  dirty = not (get_u8 field 7 % 2 == 0);
  rec_type = get_u8 field 0;
  unknown2 = take 4 (drop 8 field);
}

-- `ParseField`, where the data is long enough.
unfoldable pub parse_field : RecordStateTable → List ℕ → RecordStateTable
unfolding store
parse_field t field = let s = state_of field in record t { state_map = store s.index s t.state_map }

-- The loop of `Parse`: a field that is cut off ends it.
unfoldable pub parse_loop : ℕ → RecordStateTable → List ℕ → Option RecordStateTable
parse_loop fuel t [] = some t
parse_loop zero t (b ∷ bs) = none
parse_loop (suc fuel) t (b ∷ bs) =
    if ltb (length (b ∷ bs)) field_size
    then some t
    else parse_loop fuel (parse_field t (b ∷ bs)) (drop field_size (b ∷ bs))

-- `Parse` of the contents of a buffer. Each round takes a field, so the fuel is enough.
unfoldable pub parse : RecordStateTable → List ℕ → Option RecordStateTable
parse t bytes =
    if leb (length bytes) 12 then some t else parse_loop (length bytes) t (drop 12 bytes)

unfoldable pub clear : RecordStateTable → RecordStateTable
clear t = new_table

-- `GetIndex`: the first index with this record.
unfoldable pub get_index : ℕ → List (ℕ × State) → Option ℕ
get_index id [] = none
get_index id ((k, s) ∷ m) = if s.record_id == id then some k else get_index id m

-- A walk over the whole map that meets the id, or does not.
unfoldable pub is_taken : ℕ → List (ℕ × State) → Bool
is_taken id [] = false
is_taken id ((k, s) ∷ m) = if id == s.record_id then true else is_taken id m

-- The loop of `MakeNewRecordId`: it starts over with the next id where the walk meets the id.
unfoldable pub next_free : ℕ → ℕ → List (ℕ × State) → Option ℕ
next_free zero id m = none
next_free (suc fuel) id m =
    let rest = next_free fuel ((id + 1) % 2 ^ 32) m in if is_taken id m then rest else some id

-- `MakeNewRecordId`. One of as many ids in a row as there are states, and one more, is free.
unfoldable pub make_new_record_id : RecordStateTable → Option (ℕ × RecordStateTable)
make_new_record_id t =
    elim (next_free (suc (length t.state_map)) ((t.last_new_record_id + 1) % 2 ^ 32) t.state_map) [
      | none ↦ none
      | some id ↦ some (id, record t { last_new_record_id = id })
    ]
