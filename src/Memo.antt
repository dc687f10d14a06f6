-- ===== src/Memo.antt =====
-- Memo, src/r_memo.h and src/r_memo.cc: a record of the "Memos" database.
pub mod Parsing
use barry.Data.{Data}
use barry.Fields.{
  CommonField, u8_field, IConverter, text_field, parse_text, build_fields, Taken, took, threw,
  wrong_record_type, Parsed, parse_common_fields,
}
use barry.Fields.Text.{categories_field, take_categories}
use barry.Protocol.{get_u8}
use barry.Prelude.{ℕ, suc, Option, List, [], ◌∷◌, ◌++◌, ◌==◌, if◌then◌else◌, length}

-- An unknown field is kept with its type and its bytes.
pub record Memo : Type 0 where
  pub rec_type : ℕ
  pub record_id : ℕ
  pub title : List ℕ
  pub body : List ℕ
  pub categories : List (List ℕ)
  pub unknowns : List CommonField

unfoldable pub cleared : Memo
cleared = record {
  rec_type = 0;
  record_id = 0;
  title = [];
  body = [];
  categories = [];
  unknowns = [];
}

unfoldable pub set_ids : ℕ → ℕ → Memo → Memo
set_ids type id memo = record memo { rec_type = type; record_id = id }

module _ (ic : Option IConverter) where
  -- `ParseField` of a field that lies before the end and has some bytes. The fields of the link
  -- table are the title and the body.
  unfoldable pub take_field : Memo → ℕ → List ℕ → Taken Memo
  take_field memo type raw =
      if type == 0x03
      then if get_u8 raw 0 == b'm' then took memo else threw wrong_record_type
      else if type == 0x01
      then took (record memo { title = parse_text ic raw })
      else if type == 0x02
      then took (record memo { body = parse_text ic raw })
      else if type == 0x04
      then take_categories ic raw (λ cs. record memo { categories = cs })
      else took
          (record memo { unknowns = memo.unknowns ++ (record { type = type; raw = raw } ∷ []) })

  unfoldable pub parse_fields : Memo → List ℕ → Parsed Memo
  parse_fields memo bytes = parse_common_fields take_field (suc (length bytes)) memo bytes

  -- The fields that `BuildFields` writes, in their order.
  unfoldable pub fields : Memo → List CommonField
  fields memo =
      u8_field 0x03 b'm'
      ∷ (categories_field ic 0x04 memo.categories
          ++ (text_field ic 0x01 memo.title ++ (text_field ic 0x02 memo.body ++ memo.unknowns)))

  unfoldable pub build : Memo → Data → ℕ → Option Data
  unfolding fields
  build memo d offset = build_fields d offset (fields memo)
