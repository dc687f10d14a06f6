-- ===== src/Fields/Address.antt =====
-- The address fields of an appointment: EmailAddress of src/record.h, as src/r_calendar.cc reads
-- and writes it.
use barry.Fields.{CommonField, IConverter, from_device, Taken, took, threw, outside_field}
use barry.Prelude.{ℕ, suc, ◌+◌, Option, List, [], ◌∷◌, ◌++◌, ◌==◌, if◌then◌else◌, length, drop}

pub record EmailAddress : Type 0 where
  pub name : List ℕ
  pub email : List ℕ

abbrev pub address_size : EmailAddress → ℕ
address_size a = length a.name + length a.email

-- The C string that starts a buffer.
abbrev pub c_str : List ℕ → List ℕ
c_str [] = []
c_str (c ∷ cs) = let rest = c_str cs in if c == 0 then [] else c ∷ rest

-- The bytes of the address as the record holds them. The source converts copies of the two
-- strings before, and does not use the copies.
unfoldable pub address_field : ℕ → EmailAddress → CommonField
address_field type a = record { type = type; raw = a.email ++ (0 ∷ (a.name ++ (0 ∷ []))) }

-- The fields of a list of addresses, without the empty ones.
abbrev pub address_fields : ℕ → List EmailAddress → List CommonField
address_fields type [] = []
address_fields type (a ∷ list) =
    let rest = address_fields type list in
    if address_size a == 0 then rest else address_field type a ∷ rest

abbrev pub converted : Option IConverter → EmailAddress → EmailAddress
converted ic a = record { name = from_device ic a.name; email = from_device ic a.email }

-- The list after a field. Where the field has no null byte, the name is read from behind the
-- string's own terminator, and what the program does then is undefined.
unfoldable pub take_address {ℓ} :
    {S : Type ℓ}
    → Option IConverter
    → List ℕ
    → List EmailAddress
    → (List EmailAddress → S)
    → Taken S
take_address ic raw list set =
    let email = c_str raw in
    let a : EmailAddress = record { name = c_str (drop (suc (length email)) raw); email = email } in
    if length email == length raw
    then threw outside_field
    else if address_size a == 0
    then took (set list)
    else took (set (list ++ (converted ic a ∷ [])))
