-- ===== src/Contact/Parsing.antt =====
-- ParseFields of what BuildFields writes, both of src/r_contact.cc.
use barry.Data.{Data, contents}
use barry.Fields.Building.{HasRoom, build_fields-reads}
use barry.Contact.Parts.{
  IsContact, IsUnknown, HasEmail, unknown_kept, take-email_fields, take-group_fields, seen_after,
  take-name_fields, take-date_fields, date_fields-IsField,
}
use barry.Contact.Table.{links-IsLinked, take-table_fields, table_fields-IsField}
use barry.Contact.{
  Contact, DateFormat, GroupLink, links, cleared, set_ids, take_special, take_field, parse_fields,
  email_fields, table_fields, name_fields, group_flag, group_fields, date_fields, fields, build,
  is_empty,
}
use barry.Fields.Reading.{IsField, take_all_fields, took-append, parse_common_fields-bytes_of}
use barry.Fields.Sharing.{
  IsText, take-categories_field, take-unknowns, text_field-IsField, categories_field-IsField,
  u8_field-IsField, u32_field-IsField,
}
use barry.Fields.Text.{categories_field}
use barry.Fields.{
  bytes_of, CommonField, IConverter, u8_field, u32_field, string_field, text_field, took, parsed,
}
use barry.Prelude.{
  drop, ℕ, ◌≡◌, refl, false, ◌&&◌, Option, some, List, [], ◌∷◌, ◌++◌, length, All, All-append,
  arith, inl,
}

module _ (ic : Option IConverter) (dates : DateFormat) where
  take-group_flag :
      (s : Contact) (gs : List GroupLink)
      → take_all_fields (take_field ic dates) s (group_flag ic dates gs) ≡ took s
  unfolding take_field take_special u8_field
  take-group_flag s [] = refl
  take-group_flag s (g ∷ gs) = refl

  group_flag-IsField : (gs : List GroupLink) → All IsField (group_flag ic dates gs)
  group_flag-IsField [] = tt
  group_flag-IsField (g ∷ gs) = (u8_field-IsField 44 b'G' (omega arith), tt)

  group_fields-IsField : (gs : List GroupLink) → All IsField (group_fields ic dates gs)
  group_fields-IsField [] = tt
  group_fields-IsField (g ∷ gs) = (
    record { type_fits = omega arith; not_empty = omega arith; size_fits = omega arith },
    group_fields-IsField gs,
  )

  email_fields-IsField :
      (es : List (List ℕ)) → All (HasEmail ic) es → All IsField (email_fields ic dates es)
  email_fields-IsField [] v = tt
  email_fields-IsField (e ∷ es) ((some_text, w), vs) =
      All-append IsField (text_field ic 1 e) (email_fields ic dates es)
        (text_field-IsField ic 1 e (omega arith) w) (email_fields-IsField es vs)

  name_fields-IsField :
      (first last : List ℕ)
      → IsText ic first
      → IsText ic last
      → All IsField (name_fields ic dates first last)
  unfolding string_field
  name_fields-IsField first [] v w = text_field-IsField ic 32 first (omega arith) v
  name_fields-IsField [] (l ∷ ls) v w = (
    record { type_fits = omega arith; not_empty = omega arith; size_fits = omega arith },
    text_field-IsField ic 32 (l ∷ ls) (omega arith) w,
  )
  name_fields-IsField (f ∷ fs) (l ∷ ls) v w =
      All-append IsField (text_field ic 32 (f ∷ fs)) (text_field ic 32 (l ∷ ls))
        (text_field-IsField ic 32 (f ∷ fs) (omega arith) v)
        (text_field-IsField ic 32 (l ∷ ls) (omega arith) w)

unknowns-IsField : (us : List CommonField) → All IsUnknown us → All IsField us
unknowns-IsField [] v = tt
unknowns-IsField (f ∷ fs) (v, vs) = (v.field, unknowns-IsField fs vs)

module _ (ic : Option IConverter) (dates : DateFormat) (c : Contact)
    (v : IsContact ic dates c) where
  abbrev pub start : Contact
  start = set_ids c.rec_type c.record_id cleared

  -- The contact with the strings that were read, and with what the last name field left.
  abbrev pub as_read : (ℕ → List ℕ) → Contact
  as_read text = record c {
    text = text;
    first_name_seen = seen_after ic dates c.first_name c.last_name;
  }

  abbrev named : Contact
  named = record start {
    first_name = c.first_name;
    last_name = c.last_name;
    first_name_seen = seen_after ic dates c.first_name c.last_name;
  }

  abbrev mailed : Contact
  mailed = record named { email_addresses = c.email_addresses }

  abbrev last_fields : List CommonField
  last_fields =
      group_fields ic dates c.group_links
      ++ (categories_field ic 59 c.categories
          ++ (date_fields ic dates 82 c.birthday
              ++ (date_fields ic dates 83 c.anniversary ++ c.unknowns)))

  take-last_fields :
      (text : ℕ → List ℕ)
      → take_all_fields (take_field ic dates) (record mailed { text = text }) last_fields
        ≡ took (as_read text)
  unfolding take_field take_special set_ids cleared
  take-last_fields text =
      let t = take_field ic dates in
      let s : Contact = record mailed { text = text } in
      let linked : Contact = record s { group_links = c.group_links } in
      let sorted : Contact = record linked { categories = c.categories } in
      let born : Contact = record sorted { birthday = c.birthday } in
      let dated : Contact = record born { anniversary = c.anniversary } in
      let r3 = date_fields ic dates 83 c.anniversary ++ c.unknowns in
      let r2 = date_fields ic dates 82 c.birthday ++ r3 in
      took-append t s linked (as_read text) (group_fields ic dates c.group_links)
        (categories_field ic 59 c.categories ++ r2)
        (take-group_fields ic dates s [] c.group_links v.group_links)
        (took-append t linked sorted (as_read text) (categories_field ic 59 c.categories) r2
          (take-categories_field t ic 59 linked (λ cs. record linked { categories = cs })
            c.categories (λ raw. refl) refl v.category_names v.categories)
          (took-append t sorted born (as_read text) (date_fields ic dates 82 c.birthday) r3
            (take-date_fields ic dates 82 sorted (λ d. record sorted { birthday = d }) c.birthday
              (λ raw. refl) refl v.birthday)
            (took-append t born dated (as_read text) (date_fields ic dates 83 c.anniversary)
              c.unknowns
              (take-date_fields ic dates 83 born (λ d. record born { anniversary = d })
                c.anniversary (λ raw. refl) refl v.anniversary)
              (take-unknowns t (λ us. record dated { unknowns = us }) IsUnknown
                (unknown_kept ic dates dated) [] c.unknowns v.unknowns))))

  take-fields :
      (text : ℕ → List ℕ) × (take_all_fields (take_field ic dates) start (fields ic dates c)
        ≡ took (as_read text))
      × All (λ l. text l.code ≡ c.text l.code) links
  unfolding fields take_field take_special u32_field set_ids cleared
  take-fields =
      let t = take_field ic dates in
      let (text, taken, same, keeps) =
        take-table_fields ic dates c links mailed links-IsLinked v.text (λ k. inl refl) in
      let r3 = table_fields ic dates c.text links ++ last_fields in
      let r2 = u32_field 85 c.record_id ∷ (email_fields ic dates c.email_addresses ++ r3) in
      let (first_text, last_text) = v.names in
      (
        text,
        took-append t start start (as_read text) (group_flag ic dates c.group_links)
            (name_fields ic dates c.first_name c.last_name ++ r2)
            (take-group_flag ic dates start c.group_links)
            (took-append t start named (as_read text)
              (name_fields ic dates c.first_name c.last_name) r2
              (take-name_fields ic dates start c.first_name c.last_name v.blank first_text
                last_text)
              (took-append t named mailed (as_read text) (email_fields ic dates c.email_addresses)
                r3 (take-email_fields ic dates named [] c.email_addresses v.email_addresses)
                (took-append t mailed (record mailed { text = text }) (as_read text)
                  (table_fields ic dates c.text links) last_fields taken (take-last_fields text)))),
        same,
      )

  fields-IsField : All IsField (fields ic dates c)
  unfolding fields
  fields-IsField =
      let (first_text, last_text) = v.names in
      let r6 = date_fields ic dates 83 c.anniversary ++ c.unknowns in
      let r5 = date_fields ic dates 82 c.birthday ++ r6 in
      let r4 = categories_field ic 59 c.categories ++ r5 in
      let r3 = table_fields ic dates c.text links ++ last_fields in
      let r2 = email_fields ic dates c.email_addresses ++ r3 in
      let dated : All IsField r5 =
        All-append IsField (date_fields ic dates 82 c.birthday) r6
          (date_fields-IsField ic dates 82 start (λ d. start) c.birthday (omega arith) v.birthday)
          (All-append IsField (date_fields ic dates 83 c.anniversary) c.unknowns
            (date_fields-IsField ic dates 83 start (λ d. start) c.anniversary (omega arith)
              v.anniversary)
            (unknowns-IsField c.unknowns v.unknowns)) in
      let last : All IsField last_fields =
        All-append IsField (group_fields ic dates c.group_links) r4
          (group_fields-IsField ic dates c.group_links)
          (All-append IsField (categories_field ic 59 c.categories) r5
            (categories_field-IsField ic 59 c.categories (omega arith) v.categories) dated) in
      let middle : All IsField r2 =
        All-append IsField (email_fields ic dates c.email_addresses) r3
          (email_fields-IsField ic dates c.email_addresses v.email_addresses)
          (All-append IsField (table_fields ic dates c.text links) last_fields
            (table_fields-IsField ic dates c links links-IsLinked v.text) last) in
      All-append IsField (group_flag ic dates c.group_links)
        (name_fields ic dates c.first_name c.last_name ++ (u32_field 85 c.record_id ∷ r2))
        (group_flag-IsField ic dates c.group_links)
        (All-append IsField (name_fields ic dates c.first_name c.last_name)
          (u32_field 85 c.record_id ∷ r2)
          (name_fields-IsField ic dates c.first_name c.last_name first_text last_text)
          (u32_field-IsField 85 c.record_id (omega arith), middle))

  -- A contact with a name or a company, which the fields can hold, is built where the buffer has the
  -- room for its fields without a move, and it is read back from the bytes behind the offset, to
  -- the last one: every string that the link table names, the names, the
  -- addresses, the dates, the links, the categories and the unknown fields are those of the
  -- contact. Its texts are such that the converter gives them back, and its dates such that their
  -- format does.
  pub parse_fields-build_contact :
      (is_empty c.first_name && (is_empty c.last_name && is_empty (c.text 33))) ≡ false
      → (d : Data) (offset : ℕ) → HasRoom d offset (bytes_of (fields ic dates c))
      → (d' : Data) × (build ic dates c d offset ≡ some d')
        × (text : ℕ → List ℕ) × (let bytes = drop offset (contents d') in
            parse_fields ic dates start bytes ≡ parsed (as_read text) (length bytes))
        × All (λ l. text l.code ≡ c.text l.code) links
  unfolding parse_fields build
  parse_fields-build_contact h d offset room =
      let (text, taken, same) = take-fields in
      let (d', built, read) =
        build_fields-reads
          (λ bytes. parse_fields ic dates start bytes ≡ parsed (as_read text) (length bytes)) d
          offset (fields ic dates c) room
          (parse_common_fields-bytes_of (take_field ic dates) start (as_read text)
            (fields ic dates c) fields-IsField taken) in
      (d', rw h built, text, read, same)
