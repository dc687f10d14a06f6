-- ===== src/Contact/Table.antt =====
-- The strings of the link table of a contact, as BuildFields of src/r_contact.cc writes them and
-- ParseField reads them.
use barry.Fields.Reading.{IsField, take_all_fields, took-append}
use barry.Fields.Sharing.{IsText, take-string_field, text_field-IsField}
use barry.Fields.{IConverter, string_field, to_device, parse_text, text_field, took}
use barry.Contact.{
  Contact, DateFormat, Link, links, find_link, set_text, converter, take_link, take_field,
  table_fields,
}
use barry.Prelude.{
  ℕ, ◌<◌, ◌≡◌, refl, sym, ap, ◌∙◌, ◌⊎◌, inl, inr, Bool, true, false, Option, some, List, [], ◌∷◌,
  ◌==◌, All, All-append, Bool-cases, ==_iff, ltb, ltb→lt, ◌&&◌, not, none,
}

-- An entry that the table finds again under its code.
abbrev pub IsLinked : Link → Type 0
IsLinked l = (find_link l.code links ≡ some l) × (l.code < 256)

both : (a b : Bool) → (a && b) ≡ true → (a ≡ true) × (b ≡ true)
both true b h = (refl, h)
both false b h = absurd (cc h)

abbrev same_flag : Bool → Bool → Bool
same_flag true b = b
same_flag false b = not b

same_flag_sound : (a b : Bool) → same_flag a b ≡ true → a ≡ b
same_flag_sound true b h = sym h
same_flag_sound false true h = absurd (cc h)
same_flag_sound false false h = refl

abbrev is_same : Option Link → Link → Bool
is_same none l = false
is_same (some m) l = (m.code == l.code) && same_flag m.iconv_needed l.iconv_needed

is_same_sound : (o : Option Link) (l : Link) → is_same o l ≡ true → o ≡ some l
is_same_sound none l h = absurd (cc h)
is_same_sound (some m) l h =
    let (code, flag) = both (m.code == l.code) (same_flag m.iconv_needed l.iconv_needed) h in
    let c : m.code ≡ l.code = (==_iff m.code l.code).0 code in
    let f = same_flag_sound m.iconv_needed l.iconv_needed flag in
    λ i. some (record { code = c i; iconv_needed = f i })

abbrev all_linked : List Link → Bool
all_linked [] = true
all_linked (l ∷ ls) = (is_same (find_link l.code links) l && ltb l.code 256) && all_linked ls

all_linked-IsLinked : (ls : List Link) → all_linked ls ≡ true → All IsLinked ls
all_linked-IsLinked [] h = tt
all_linked-IsLinked (l ∷ ls) h =
    let test = is_same (find_link l.code links) l in
    let (here, later) = both (test && ltb l.code 256) (all_linked ls) h in
    let (same, fits) = both test (ltb l.code 256) here in
    (
      (is_same_sound (find_link l.code links) l same, ltb→lt l.code 256 fits),
      all_linked-IsLinked ls later,
    )

pub links-IsLinked : All IsLinked links
links-IsLinked = all_linked-IsLinked links refl

module _ (ic : Option IConverter) (dates : DateFormat) (contact : Contact) where
  abbrev pub HasText : Link → Type 0
  HasText l = IsText (converter l.iconv_needed ic) (contact.text l.code)

  -- Every string is still empty, or is that of the contact.
  abbrev pub IsSettled : (ℕ → List ℕ) → Type 0
  IsSettled t = (k : ℕ) → (t k ≡ []) ⊎ (t k ≡ contact.text k)

  abbrev pub Keeps : (ℕ → List ℕ) → (ℕ → List ℕ) → Type 0
  Keeps s t = (k : ℕ) → s k ≡ contact.text k → t k ≡ contact.text k

  settled_or : (a b : List ℕ) → (a ≡ []) ⊎ (a ≡ b) → b ≡ [] → a ≡ b
  settled_or a b (inl h) e = h ∙ sym e
  settled_or a b (inr h) e = h

  set_text-at :
      (t : ℕ → List ℕ) (code : ℕ) (k : ℕ)
      → set_text t code (contact.text code) k ≡ t k
        ⊎ (set_text t code (contact.text code) k ≡ contact.text k)
  set_text-at t code k = elim (Bool-cases (k == code)) [
    | inl same ↦ inr (rw same (ap contact.text (sym ((==_iff k code).0 same))))
    | inr differs ↦ inl (rw differs)
  ]

  take_field-linked :
      (s : Contact) (l : Link)
      → find_link l.code links ≡ some l
      → (raw : List ℕ)
      → take_field ic dates s l.code raw
        ≡ took (record s {
          text = set_text s.text l.code (parse_text (converter l.iconv_needed ic) raw);
        })
  unfolding take_field
  take_field-linked s l linked raw = ap (take_link ic dates s l.code raw) linked

  take-link :
      (s : Contact) (l : Link) (str : List ℕ)
      → contact.text l.code ≡ str
      → IsLinked l
      → HasText l
      → IsSettled s.text
      → (t : ℕ → List ℕ) × (take_all_fields
            (take_field ic dates)
            s
            (text_field (converter l.iconv_needed ic) l.code str)
          ≡ took (record s { text = t }))
        × (t l.code ≡ contact.text l.code)
        × IsSettled t
        × Keeps s.text t
  take-link s l [] e (linked, fits) v settled = (
    s.text,
    refl,
    settled_or (s.text l.code) (contact.text l.code) (settled l.code) e,
    settled,
    λ k h. h,
  )
  take-link s l (x ∷ xs) e (linked, fits) v settled =
      let t = set_text s.text l.code (contact.text l.code) in
      let set : List ℕ → Contact = λ str. record s { text = set_text s.text l.code str } in
      let same : (l.code == l.code) ≡ true = (==_iff l.code l.code).1 refl in
      (
        t,
        ap
              (λ str.
                take_all_fields (take_field ic dates) s
                  (string_field l.code (to_device (converter l.iconv_needed ic) str) ∷ []))
              (sym e)
            ∙ take-string_field (take_field ic dates) (converter l.iconv_needed ic) l.code s set
                (contact.text l.code) (take_field-linked s l linked) v,
        rw same,
        (λ k. elim (set_text-at s.text l.code k) [
          | inl same_k ↦ elim (settled k) [ inl h ↦ inl (same_k ∙ h) | inr h ↦ inr (same_k ∙ h) ]
          | inr done ↦ inr done
        ]),
        (λ k h. elim (set_text-at s.text l.code k) [ inl same_k ↦ same_k ∙ h | inr done ↦ done ]),
      )

  -- The strings of the entries, whatever was read before.
  pub take-table_fields :
      (ls : List Link) (s : Contact)
      → All IsLinked ls
      → All HasText ls
      → IsSettled s.text
      → (t : ℕ → List ℕ) × (take_all_fields
            (take_field ic dates)
            s
            (table_fields ic dates contact.text ls)
          ≡ took (record s { text = t }))
        × All (λ l. t l.code ≡ contact.text l.code) ls
        × Keeps s.text t
  take-table_fields [] s v w settled = (s.text, refl, tt, λ k h. h)
  take-table_fields (l ∷ ls) s (v, vs) (w, ws) settled =
      let (t, taken, here, settled_t, keeps) =
        take-link s l (contact.text l.code) refl v w settled in
      let (u, rest, later, keeps_u) =
        take-table_fields ls (record s { text = t }) vs ws settled_t in
      (
        u,
        took-append (take_field ic dates) s (record s { text = t }) (record s { text = u })
            (text_field (converter l.iconv_needed ic) l.code (contact.text l.code))
            (table_fields ic dates contact.text ls) taken rest,
        (keeps_u l.code here, later),
        λ k h. keeps_u k (keeps k h),
      )

  pub table_fields-IsField :
      (ls : List Link)
      → All IsLinked ls
      → All HasText ls
      → All IsField (table_fields ic dates contact.text ls)
  table_fields-IsField [] v w = tt
  table_fields-IsField (l ∷ ls) ((linked, fits), vs) (w, ws) =
      All-append IsField (text_field (converter l.iconv_needed ic) l.code (contact.text l.code))
        (table_fields ic dates contact.text ls)
        (text_field-IsField (converter l.iconv_needed ic) l.code (contact.text l.code) fits w)
        (table_fields-IsField ls vs ws)
