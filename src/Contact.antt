-- ===== src/Contact.antt =====
-- Contact, src/r_contact.h and src/r_contact.cc: a record of the "Address Book" database.
--
-- The dates of a contact are printed by a stream and read by `sscanf`, which are a pair of
-- functions here.
mod Links
pub mod Table
pub mod Parts
pub mod Parsing
pub use Links.{Date, no_date, is_zero, has_data, DateFormat, GroupLink, Link, links, find_link}
use barry.Data.{Data}
use barry.Fields.{
  CommonField, u8_field, u32_field, string_field, IConverter, to_device, text_field, parse_text,
  parse_field_string, build_fields, Taken, took, threw, outside_field, Parsed, parse_common_fields,
}
use barry.Fields.Text.{categories_field, take_categories}
use barry.Protocol.{get_u16, get_u32, u16_bytes, u32_bytes}
use barry.Prelude.{
  ℕ, zero, suc, Bool, true, false, not, ◌&&◌, ◌||◌, Option, none, some, List, [], ◌∷◌, ◌++◌, ltb,
  ◌==◌, if◌then◌else◌, length, ℤ, pos, negsuc,
}

-- `text` holds the strings that the link table names, those of the two postal addresses too, each
-- under its code.
pub record Contact : Type 0 where
  pub rec_type : ℕ
  pub record_id : ℕ
  pub email_addresses : List (List ℕ)
  pub text : ℕ → List ℕ
  pub first_name : List ℕ
  pub last_name : List ℕ
  pub birthday : Date
  pub anniversary : Date
  pub categories : List (List ℕ)
  pub group_links : List GroupLink
  pub unknowns : List CommonField
  pub first_name_seen : Bool

unfoldable pub cleared : Contact
cleared = record {
  rec_type = 0;
  record_id = 0;
  email_addresses = [];
  text = λ code. [];
  first_name = [];
  last_name = [];
  birthday = no_date;
  anniversary = no_date;
  categories = [];
  group_links = [];
  unknowns = [];
  first_name_seen = false;
}

unfoldable pub set_ids : ℕ → ℕ → Contact → Contact
set_ids type id contact = record contact { rec_type = type; record_id = id }

abbrev pub is_empty : List ℕ → Bool
is_empty [] = true
is_empty (c ∷ cs) = false

abbrev pub set_text : (ℕ → List ℕ) → ℕ → List ℕ → ℕ → List ℕ
set_text text code s k = if k == code then s else text k

abbrev pub converter : Bool → Option IConverter → Option IConverter
converter iconv_needed ic = if iconv_needed then ic else none

-- The size of `GroupLink` on the wire.
abbrev pub group_link_size : ℕ
group_link_size = 6

module _ (ic : Option IConverter) (dates : DateFormat) where
  -- The first name that a record sees is the first name, and the next one the last name.
  abbrev pub take_name : Contact → List ℕ → Contact
  take_name contact name =
      if not (is_empty contact.first_name) || contact.first_name_seen
      then record contact { last_name = name; first_name_seen = false }
      else record contact { first_name = name; first_name_seen = true }

  abbrev pub take_date : Date → Option Date → Date
  take_date old none = old
  take_date old (some d) = d

  -- The switch. Nothing tests that a group link is as long as its structure.
  unfoldable pub take_special : Contact → ℕ → List ℕ → Taken Contact
  take_special contact type raw =
      if type == 1
      then took
          (record contact { email_addresses = contact.email_addresses ++ (parse_text ic raw ∷ []) })
      else if type == 32
      then took (take_name contact (parse_text ic raw))
      else if type == 52
      then (if ltb (length raw) group_link_size
          then threw outside_field
          else took (record contact {
            group_links =
                contact.group_links
                ++ (record { link = get_u32 raw 0; unknown = get_u16 raw 4 } ∷ []);
          }))
      else if type == 44
      then took contact
      else if type == 59
      then take_categories ic raw (λ cs. record contact { categories = cs })
      else if type == 82
      then took (record contact {
        birthday = take_date contact.birthday (dates.from_bb_string (parse_field_string raw));
      })
      else if type == 83
      then took (record contact {
        anniversary = take_date contact.anniversary (dates.from_bb_string (parse_field_string raw));
      })
      else if type == 85
      then took contact
      else took (record contact {
        unknowns = contact.unknowns ++ (record { type = type; raw = raw } ∷ []);
      })

  abbrev pub take_link : Contact → ℕ → List ℕ → Option Link → Taken Contact
  take_link contact type raw none = take_special contact type raw
  take_link contact type raw (some l) = took (record contact {
    text = set_text contact.text l.code (parse_text (converter l.iconv_needed ic) raw);
  })

  -- `ParseField` of a field that lies before the end and has some bytes.
  unfoldable pub take_field : Contact → ℕ → List ℕ → Taken Contact
  unfolding take_special
  take_field contact type raw = take_link contact type raw (find_link type links)

  unfoldable pub parse_fields : Contact → List ℕ → Parsed Contact
  parse_fields contact bytes = parse_common_fields take_field (suc (length bytes)) contact bytes

  abbrev pub email_fields : List (List ℕ) → List CommonField
  email_fields [] = []
  email_fields (e ∷ es) = text_field ic 1 e ++ email_fields es

  abbrev pub table_fields : (ℕ → List ℕ) → List Link → List CommonField
  table_fields text [] = []
  table_fields text (l ∷ ls) =
      text_field (converter l.iconv_needed ic) l.code (text l.code) ++ table_fields text ls

  -- A last name without a first name stands behind a blank one.
  abbrev pub name_fields : List ℕ → List ℕ → List CommonField
  name_fields first [] = text_field ic 32 first
  name_fields [] (c ∷ cs) = string_field 32 [] ∷ text_field ic 32 (c ∷ cs)
  name_fields (f ∷ fs) (c ∷ cs) = text_field ic 32 (f ∷ fs) ++ text_field ic 32 (c ∷ cs)

  abbrev pub group_flag : List GroupLink → List CommonField
  group_flag [] = []
  group_flag (g ∷ gs) = u8_field 44 b'G' ∷ []

  abbrev pub group_fields : List GroupLink → List CommonField
  group_fields [] = []
  group_fields (g ∷ gs) =
      record { type = 52; raw = u32_bytes g.link ++ u16_bytes g.unknown } ∷ group_fields gs

  abbrev pub date_fields : ℕ → Date → List CommonField
  date_fields code d = if has_data d then string_field code (dates.to_bb_string d) ∷ [] else []

  -- The fields that `BuildFields` writes, in their order.
  unfoldable pub fields : Contact → List CommonField
  fields contact =
      group_flag contact.group_links
      ++ (name_fields contact.first_name contact.last_name
          ++ (u32_field 85 contact.record_id
              ∷ (email_fields contact.email_addresses
                  ++ (table_fields contact.text links
                      ++ (group_fields contact.group_links
                          ++ (categories_field ic 59 contact.categories
                              ++ (date_fields 82 contact.birthday
                                  ++ (date_fields 83 contact.anniversary ++ contact.unknowns))))))))

  -- `none`: there is neither a name nor a company, and `BuildFields` throws `BadData`.
  unfoldable pub build : Contact → Data → ℕ → Option Data
  unfolding fields
  build contact d offset =
      if is_empty contact.first_name && (is_empty contact.last_name && is_empty (contact.text 33))
      then none
      else build_fields d offset (fields contact)
