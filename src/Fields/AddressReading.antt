-- ===== src/Fields/AddressReading.antt =====
-- The addresses of an appointment, read back from the fields that src/r_calendar.cc writes.
use barry.Fields.Address.{
  EmailAddress, address_size, c_str, address_field, address_fields, converted, take_address,
}
use barry.Fields.Reading.{IsField, take_all_fields}
use barry.Fields.{IConverter, Taken, took, then_take}
use barry.Prelude.{
  ℕ, suc, ◌+◌, ◌^◌, ◌<◌, ◌≡◌, ◌≢◌, refl, sym, ap, ◌∙◌, false, Option, List, [], ◌∷◌, ◌++◌, length,
  length-append, drop, All, arith, ◌==◌,
}
use mathlib.Core.List.{append_assoc, append-nil}

-- An address that a field can hold: some text, no null byte, which the converter leaves alone.
pub record IsAddress (ic : Option IConverter) (a : EmailAddress) : Type 0 where
  pub not_empty : 0 < address_size a
  pub email_text : All (λ c. c ≢ 0) a.email
  pub name_text : All (λ c. c ≢ 0) a.name
  pub unchanged : converted ic a ≡ a
  pub fits : address_size a + 2 < 2 ^ 16

c_str-append : (s rest : List ℕ) → All (λ c. c ≢ 0) s → c_str (s ++ (0 ∷ rest)) ≡ s
c_str-append [] rest v = refl
c_str-append (c ∷ s) rest (h, v) =
    let other : (c == 0) ≡ false = ground (arith, h) in
    rw other (ap (◌∷◌ c) (c_str-append s rest v))

drop-null : (s rest : List ℕ) → drop (suc (length s)) (s ++ (0 ∷ rest)) ≡ rest
drop-null [] rest = refl
drop-null (c ∷ s) rest = drop-null s rest

module _ (ic : Option IConverter) where
  take_address-field {ℓ} :
      {S : Type ℓ} (type : ℕ) (a : EmailAddress) (list : List EmailAddress)
      (set : List EmailAddress → S)
      → IsAddress ic a
      → take_address ic (address_field type a).raw list set ≡ took (set (list ++ (a ∷ [])))
  unfolding take_address address_field
  take_address-field type a list set v =
      let raw = a.email ++ (0 ∷ (a.name ++ (0 ∷ []))) in
      let inside : (length a.email == length raw) ≡ false =
        ground (arith, length-append a.email (0 ∷ (a.name ++ (0 ∷ [])))) in
      let some_text : (address_size a == 0) ≡ false = ground (arith, v.not_empty) in
      rw
        (
          c_str-append a.email (a.name ++ (0 ∷ [])) v.email_text,
          drop-null a.email (a.name ++ (0 ∷ [])),
          c_str-append a.name [] v.name_text,
          inside,
          some_text,
        )
        (ap (λ k. took (set (list ++ (k ∷ [])))) v.unchanged)

  address_field-IsField :
      (type : ℕ) (a : EmailAddress) → type < 256 → IsAddress ic a → IsField (address_field type a)
  unfolding address_field
  address_field-IsField type a h v =
      let size : length (a.email ++ (0 ∷ (a.name ++ (0 ∷ [])))) ≡ address_size a + 2 =
        omega (
          arith,
          length-append a.email (0 ∷ (a.name ++ (0 ∷ []))),
          length-append a.name (0 ∷ []),
        ) in
      record {
        type_fits = h;
        not_empty = omega (arith, size);
        size_fits = omega (arith, size, v.fits);
      }

  pub address_fields-IsField :
      (type : ℕ) (list : List EmailAddress)
      → type < 256
      → All (IsAddress ic) list
      → All IsField (address_fields type list)
  address_fields-IsField type [] h v = tt
  address_fields-IsField type (a ∷ list) h (v, vs) =
      let some_text : (address_size a == 0) ≡ false = ground (arith, v.not_empty) in
      rw some_text (address_field-IsField type a h v, address_fields-IsField type list h vs)

module _ {ℓ} {S : Type ℓ} (take_field : S → ℕ → List ℕ → Taken S) (ic : Option IConverter)
    (type : ℕ) (set : List EmailAddress → S)
    (adds : (list : List EmailAddress) (raw : List ℕ)
      → take_field (set list) type raw ≡ take_address ic raw list set) where
  pub take-address_fields :
      (list as_read : List EmailAddress)
      → All (IsAddress ic) as_read
      → take_all_fields take_field (set list) (address_fields type as_read)
        ≡ took (set (list ++ as_read))
  unfolding address_field
  take-address_fields list [] v = ap (λ k. took (set k)) (sym (append-nil list))
  take-address_fields list (a ∷ more) (v, vs) =
      let some_text : (address_size a == 0) ≡ false = ground (arith, v.not_empty) in
      rw some_text (
        ap (λ t. then_take t (λ u. take_all_fields take_field u (address_fields type more)))
          (adds list (address_field type a).raw ∙ take_address-field ic type a list set v)
        ∙ (take-address_fields (list ++ (a ∷ [])) more vs
            ∙ ap (λ k. took (set k)) (append_assoc list (a ∷ []) more)))
