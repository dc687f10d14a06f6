-- ===== src/Memo/Parsing.antt =====
-- ParseFields of what BuildFields writes, both of src/r_memo.cc.
use barry.Data.{Data, contents}
use barry.Fields.Building.{HasRoom, build_fields-reads}
use barry.Fields.Categories.{category_list2str}
use barry.Fields.Categories.Tokens.{IsCategory}
use barry.Fields.Reading.{IsField, take_all_fields, took-append, parse_common_fields-bytes_of}
use barry.Fields.Sharing.{
  IsText, take-text_field, take-categories_field, take-unknowns, text_field-IsField,
  categories_field-IsField,
}
use barry.Fields.Text.{categories_field}
use barry.Fields.{bytes_of, CommonField, IConverter, text_field, u8_field, took, parsed}
use barry.Memo.{Memo, cleared, set_ids, take_field, parse_fields, fields, build}
use barry.Prelude.{
  drop, some, ℕ, ◌<◌, ◌≡◌, refl, Option, List, [], ◌∷◌, ◌++◌, ◌==◌, false, length, All, All-append,
  arith,
}

-- A field that no member of a memo is read from.
pub record IsUnknown (f : CommonField) : Type 0 where
  pub field : IsField f
  pub unknown : 0x04 < f.type

unknowns-IsField : (us : List CommonField) → All IsUnknown us → All IsField us
unknowns-IsField [] v = tt
unknowns-IsField (f ∷ fs) (v, vs) = (v.field, unknowns-IsField fs vs)

-- A memo whose strings the device can hold.
pub record IsMemo (ic : Option IConverter) (memo : Memo) : Type 0 where
  pub title : IsText ic memo.title
  pub body : IsText ic memo.body
  pub names : All IsCategory memo.categories
  pub categories : IsText ic (category_list2str memo.categories)
  pub unknowns : All IsUnknown memo.unknowns

module _ (ic : Option IConverter) (memo : Memo) (v : IsMemo ic memo) where
  abbrev with_categories : Memo → Memo
  with_categories m = record m { categories = memo.categories }

  abbrev with_title : Memo → Memo
  with_title m = record m { title = memo.title }

  abbrev with_body : Memo → Memo
  with_body m = record m { body = memo.body }

  abbrev pub start : Memo
  start = set_ids memo.rec_type memo.record_id cleared

  unknown_kept :
      (m : Memo) (us : List CommonField) (f : CommonField)
      → IsUnknown f
      → take_field ic (record m { unknowns = us }) f.type f.raw
        ≡ took (record m { unknowns = us ++ (f ∷ []) })
  unfolding take_field
  unknown_kept m us f u =
      let a : (f.type == 0x03) ≡ false = ground (arith, u.unknown) in
      let b : (f.type == 0x01) ≡ false = ground (arith, u.unknown) in
      let c : (f.type == 0x02) ≡ false = ground (arith, u.unknown) in
      let d : (f.type == 0x04) ≡ false = ground (arith, u.unknown) in rw (a, b, c, d)

  take-fields : take_all_fields (take_field ic) start (fields ic memo) ≡ took memo
  unfolding fields take_field set_ids cleared u8_field
  take-fields =
      let t = take_field ic in
      let named = with_categories start in
      let titled = with_title named in
      let read = with_body titled in
      took-append t start named memo (categories_field ic 0x04 memo.categories)
        (text_field ic 0x01 memo.title ++ (text_field ic 0x02 memo.body ++ memo.unknowns))
        (take-categories_field t ic 0x04 start (λ cs. record start { categories = cs })
          memo.categories (λ raw. refl) refl v.names v.categories)
        (took-append t named titled memo (text_field ic 0x01 memo.title)
          (text_field ic 0x02 memo.body ++ memo.unknowns)
          (take-text_field t ic 0x01 named (λ str. record named { title = str }) memo.title
            (λ raw. refl) refl v.title)
          (took-append t titled read memo (text_field ic 0x02 memo.body) memo.unknowns
            (take-text_field t ic 0x02 titled (λ str. record titled { body = str }) memo.body
              (λ raw. refl) refl v.body)
            (take-unknowns t (λ us. record read { unknowns = us }) IsUnknown (unknown_kept read) []
              memo.unknowns v.unknowns)))

  fields-IsField : All IsField (fields ic memo)
  unfolding fields u8_field
  fields-IsField = (
    record { type_fits = omega arith; not_empty = omega arith; size_fits = omega arith },
    All-append IsField (categories_field ic 0x04 memo.categories)
        (text_field ic 0x01 memo.title ++ (text_field ic 0x02 memo.body ++ memo.unknowns))
        (categories_field-IsField ic 0x04 memo.categories (omega arith) v.categories)
        (All-append IsField (text_field ic 0x01 memo.title)
          (text_field ic 0x02 memo.body ++ memo.unknowns)
          (text_field-IsField ic 0x01 memo.title (omega arith) v.title)
          (All-append IsField (text_field ic 0x02 memo.body) memo.unknowns
            (text_field-IsField ic 0x02 memo.body (omega arith) v.body)
            (unknowns-IsField memo.unknowns v.unknowns))),
  )

  -- Where the buffer has the room for its fields without a move, BuildFields of a memo returns, and
  -- the memo is read back from the bytes behind the offset, to the last byte, where the
  -- device can hold its strings, no category is empty or has a comma or a space at an end, and
  -- the fields it does not know have none of its types and some bytes, but less than 2 ^ 16.
  pub parse_fields-build-memo :
      (d : Data) (offset : ℕ)
      → HasRoom d offset (bytes_of (fields ic memo))
      → (d' : Data) × (build ic memo d offset ≡ some d')
        × (let bytes = drop offset (contents d') in
            parse_fields ic start bytes ≡ parsed memo (length bytes))
  unfolding parse_fields build
  parse_fields-build-memo d offset room =
      build_fields-reads (λ bytes. parse_fields ic start bytes ≡ parsed memo (length bytes)) d
        offset (fields ic memo) room
        (parse_common_fields-bytes_of (take_field ic) start memo (fields ic memo) fields-IsField
          take-fields)
