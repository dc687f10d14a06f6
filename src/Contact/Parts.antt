-- ===== src/Contact/Parts.antt =====
-- The names, addresses, dates and links of a contact, as BuildFields of src/r_contact.cc writes
-- them and ParseField reads them.
use barry.Fields.Categories.{category_list2str}
use barry.Fields.Categories.Tokens.{IsCategory}
use barry.Fields.Reading.{IsField, take_all_fields, took-append}
use barry.Fields.Sharing.{
  IsText, take-string_field, string_field-IsField, parse_text-string_field, optional-IsField,
}
use barry.Fields.{
  CommonField, IConverter, from_device, parse_text, string_field, parse_field_string, text_field,
  took, then_take,
}
use barry.Protocol.Numbers.{u16_read, u32_read}
use barry.Contact.Table.{HasText}
use barry.Contact.{
  Contact, Date, no_date, has_data, is_zero, DateFormat, GroupLink, links, find_link, take_special,
  take_link, take_date, take_field, email_fields, name_fields, group_fields, date_fields,
}
use barry.Prelude.{
  ℕ, ◌^◌, ◌<◌, ◌≡◌, refl, sym, ap, ◌∙◌, Bool, true, false, Option, none, some, List, [], ◌∷◌, ◌++◌,
  ◌==◌, length, All, arith, Bool-cases, inl, inr, not, ◌||◌, ℤ, pos, negsuc,
}
use mathlib.Core.List.{append_assoc, append-nil}

-- A date that its text gives back.
pub record IsDate (dates : DateFormat) (d : Date) : Type 0 where
  pub text : IsText none (dates.to_bb_string d)
  pub read : dates.from_bb_string (dates.to_bb_string d) ≡ some d

pub record IsGroupLink (g : GroupLink) : Type 0 where
  pub link_fits : g.link < 2 ^ 32
  pub unknown_fits : g.unknown < 2 ^ 16

abbrev pub HasEmail : Option IConverter → List ℕ → Type 0
HasEmail ic e = (0 < length e) × IsText ic e

-- A field that no member of a contact is read from.
pub record IsUnknown (f : CommonField) : Type 0 where
  pub field : IsField f
  pub no_link : find_link f.type links ≡ none
  pub no_case : All (λ code. (f.type == code) ≡ false) (1 ∷ 32 ∷ 52 ∷ 44 ∷ 59 ∷ 82 ∷ 83 ∷ 85 ∷ [])

-- A contact that the fields can hold.
pub record IsContact (ic : Option IConverter) (dates : DateFormat) (c : Contact) : Type 0 where
  pub blank : from_device ic [] ≡ []
  pub names : (IsText ic c.first_name) × (IsText ic c.last_name)
  pub email_addresses : All (HasEmail ic) c.email_addresses
  pub text : All (HasText ic dates c) links
  pub birthday : IsDate dates c.birthday
  pub anniversary : IsDate dates c.anniversary
  pub category_names : All IsCategory c.categories
  pub categories : IsText ic (category_list2str c.categories)
  pub group_links : All IsGroupLink c.group_links
  pub unknowns : All IsUnknown c.unknowns

module _ (ic : Option IConverter) (dates : DateFormat) where
  pub unknown_kept :
      (c : Contact) (us : List CommonField) (f : CommonField)
      → IsUnknown f
      → take_field ic dates (record c { unknowns = us }) f.type f.raw
        ≡ took (record c { unknowns = us ++ (f ∷ []) })
  unfolding take_field take_special
  unknown_kept c us f v =
      let (a1, (a2, (a3, (a4, (a5, (a6, (a7, (a8, u)))))))) = v.no_case in
      ap (take_link ic dates (record c { unknowns = us }) f.type f.raw) v.no_link
      ∙ rw (a1, a2, a3, a4, a5, a6, a7, a8)

  pub take-email_fields :
      (c : Contact) (read es : List (List ℕ))
      → All (HasEmail ic) es
      → take_all_fields
          (take_field ic dates)
          (record c { email_addresses = read })
          (email_fields ic dates es)
        ≡ took (record c { email_addresses = read ++ es })
  unfolding take_field take_special
  take-email_fields c read [] v =
      ap (λ k. took (record c { email_addresses = k })) (sym (append-nil read))
  take-email_fields c read ([] ∷ es) ((some_text, w), vs) = absurd (omega arith)
  take-email_fields c read ((x ∷ xs) ∷ es) ((some_text, w), vs) =
      let t = take_field ic dates in
      let s : Contact = record c { email_addresses = read } in
      let next : Contact = record c { email_addresses = read ++ ((x ∷ xs) ∷ []) } in
      took-append t s next (record c { email_addresses = read ++ ((x ∷ xs) ∷ es) })
        (text_field ic 1 (x ∷ xs)) (email_fields ic dates es)
        (take-string_field t ic 1 s (λ str. record c { email_addresses = read ++ (str ∷ []) })
          (x ∷ xs) (λ raw. refl) w)
        (take-email_fields c (read ++ ((x ∷ xs) ∷ [])) es vs
          ∙ ap (λ k. took (record c { email_addresses = k }))
              (append_assoc read ((x ∷ xs) ∷ []) es))

  pub take-group_fields :
      (c : Contact) (read gs : List GroupLink)
      → All IsGroupLink gs
      → take_all_fields
          (take_field ic dates)
          (record c { group_links = read })
          (group_fields ic dates gs)
        ≡ took (record c { group_links = read ++ gs })
  unfolding take_field take_special
  take-group_fields c read [] v =
      ap (λ k. took (record c { group_links = k })) (sym (append-nil read))
  take-group_fields c read (g ∷ gs) (v, vs) =
      let one : List GroupLink → Contact = λ k. record c { group_links = k } in
      (λ i.
        take_all_fields (take_field ic dates)
          (one (
            read
            ++ (record {
              link = u32_read g.link v.link_fits i;
              unknown = u16_read g.unknown v.unknown_fits i;
            }
                ∷ [])))
          (group_fields ic dates gs))
      ∙ (take-group_fields c (read ++ (g ∷ [])) gs vs
          ∙ ap (λ k. took (one k)) (append_assoc read (g ∷ []) gs))

  -- Whether the record waits for a last name.
  abbrev pub seen_after : List ℕ → List ℕ → Bool
  seen_after [] [] = false
  seen_after (f ∷ fs) [] = true
  seen_after first (l ∷ ls) = false

  abbrev pub nameless : Contact → Contact
  nameless c = record c { first_name = []; last_name = []; first_name_seen = false }

  pub take-name_fields :
      (c : Contact) (first last : List ℕ)
      → from_device ic [] ≡ []
      → IsText ic first
      → IsText ic last
      → take_all_fields (take_field ic dates) (nameless c) (name_fields ic dates first last)
        ≡ took (record c {
          first_name = first;
          last_name = last;
          first_name_seen = seen_after first last;
        })
  unfolding take_field take_special string_field parse_text parse_field_string
  take-name_fields c [] [] b v w = refl
  take-name_fields c (f ∷ fs) [] b v w =
      take-string_field (take_field ic dates) ic 32 (nameless c)
        (λ str. record (nameless c) { first_name = str; first_name_seen = true }) (f ∷ fs)
        (λ raw. refl) v
  take-name_fields c [] (l ∷ ls) b v w =
      let blank : List ℕ → Contact =
        λ str. record (nameless c) { first_name = str; first_name_seen = true } in
      ap (λ str. take_all_fields (take_field ic dates) (blank str) (text_field ic 32 (l ∷ ls))) b
      ∙ take-string_field (take_field ic dates) ic 32 (blank [])
          (λ str. record (nameless c) { last_name = str }) (l ∷ ls) (λ raw. refl) w
  take-name_fields c (f ∷ fs) (l ∷ ls) b v w =
      let t = take_field ic dates in
      let set : List ℕ → Contact =
        λ str. record (nameless c) { first_name = str; first_name_seen = true } in
      let one = set (f ∷ fs) in
      let set2 : List ℕ → Contact =
        λ str. record one { last_name = str; first_name_seen = false } in
      took-append t (nameless c) one (set2 (l ∷ ls)) (text_field ic 32 (f ∷ fs))
        (text_field ic 32 (l ∷ ls))
        (take-string_field t ic 32 (nameless c) set (f ∷ fs) (λ raw. refl) v)
        (take-string_field t ic 32 one set2 (l ∷ ls) (λ raw. refl) w)

is_zero-eq : (z : ℤ) → not (is_zero z) ≡ false → z ≡ pos 0
is_zero-eq (pos n) h = ap pos (ground arith)
is_zero-eq (negsuc n) h = absurd (cc h)

neither : (a b : Bool) → (a || b) ≡ false → (a ≡ false) × (b ≡ false)
neither true b h = absurd (cc h)
neither false b h = (refl, h)

has_data-none : (d : Date) → has_data d ≡ false → d ≡ no_date
has_data-none d h =
    let (m, rest) =
      neither (not (is_zero d.month)) (not (is_zero d.day) || not (is_zero d.year)) h in
    let (day, y) = neither (not (is_zero d.day)) (not (is_zero d.year)) rest in
    λ i. record {
      month = is_zero-eq d.month m i;
      day = is_zero-eq d.day day i;
      year = is_zero-eq d.year y i;
    }

module _ (ic : Option IConverter) (dates : DateFormat) (code : ℕ) (s : Contact)
    (set : Date → Contact) where
  pub take-date_fields :
      (d : Date)
      → ((raw : List ℕ)
          → take_field ic dates s code raw
            ≡ took
                (set (take_date ic dates no_date (dates.from_bb_string (parse_field_string raw)))))
      → set no_date ≡ s
      → IsDate dates d
      → take_all_fields (take_field ic dates) s (date_fields ic dates code d) ≡ took (set d)
  unfolding parse_text string_field
  take-date_fields d h c v = elim (Bool-cases (has_data d)) [
    | inl some_data ↦ rw some_data (
        ap (λ k. then_take k took)
          (h (string_field code (dates.to_bb_string d)).raw
            ∙ ap (λ o. took (set (take_date ic dates no_date o)))
                (ap dates.from_bb_string
                    (parse_text-string_field none code (dates.to_bb_string d) v.text)
                  ∙ v.read)))
    | inr no_data ↦ rw no_data (λ i. took ((sym c ∙ ap set (sym (has_data-none d no_data))) i))
  ]

  pub date_fields-IsField :
      (d : Date) → code < 256 → IsDate dates d → All IsField (date_fields ic dates code d)
  date_fields-IsField d h v =
      optional-IsField (has_data d) (string_field code (dates.to_bb_string d))
        (string_field-IsField none code (dates.to_bb_string d) v.text h)
