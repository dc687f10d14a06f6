-- ===== src/Fields/Reading.antt =====
-- ParseCommonFields on the fields that the builders of src/record.cc wrote, and on any bytes.
use barry.Protocol.Numbers.{u16_read}
use barry.Protocol.{get_u16}
use barry.FieldLoop.{fields_of}
use barry.Fields.{
  CommonField, common_field_header_size, encode, bytes_of, Taken, took, threw, Parsed, parsed,
  failed, out_of_fuel, then_take, moved, then_parse, parse_field, parse_common_fields,
}
use barry.Prelude.{
  ℕ, zero, suc, ◌+◌, ◌%◌, ◌^◌, ◌≤◌, ◌<◌, ◌≡◌, ◌≢◌, refl, sym, ap, ◌∙◌, Bool, true, false, List, [],
  ◌∷◌, ◌++◌, ltb, ◌==◌, if◌then◌else◌, length, drop, All, arith, length-append, length-drop,
  take-append, drop-append, inl, inr, Bool-cases, subst, ltb→lt,
}

-- A field that its header can describe.
pub record IsField (f : CommonField) : Type 0 where
  pub type_fits : f.type < 256
  pub not_empty : 0 < length f.raw
  pub size_fits : length f.raw < 2 ^ 16

module _ {ℓ} {S : Type ℓ} where
  then_take_assoc :
      (t : Taken S) (j k : S → Taken S)
      → then_take t (λ s. then_take (j s) k) ≡ then_take (then_take t j) k
  then_take_assoc (took s) j k = refl
  then_take_assoc (threw e) j k = refl

  then_parse-took :
      (t : Taken S) (k : S → Taken S) (p : S → Parsed S) (s' : S) (n : ℕ)
      → then_take t k ≡ took s'
      → ((s : S) → k s ≡ took s' → p s ≡ parsed s' n)
      → then_parse t p ≡ parsed s' n
  then_parse-took (took s) k p s' n h q = q s h
  then_parse-took (threw e) k p s' n h q = absurd (cc h)

module _ {ℓ} {S : Type ℓ} (take_field : S → ℕ → List ℕ → Taken S) where
  -- The record after the fields one by one.
  abbrev pub take_all_fields : S → List CommonField → Taken S
  take_all_fields s [] = took s
  take_all_fields s (f ∷ fs) = then_take (take_field s f.type f.raw) (λ s'. take_all_fields s' fs)

  pub take_all_fields-append :
      (s : S) (fs gs : List CommonField)
      → take_all_fields s (fs ++ gs)
        ≡ then_take (take_all_fields s fs) (λ s'. take_all_fields s' gs)
  take_all_fields-append s [] gs = refl
  take_all_fields-append s (f ∷ fs) gs =
      ap (then_take (take_field s f.type f.raw)) (λ i s'. take_all_fields-append s' fs gs i)
      ∙ then_take_assoc (take_field s f.type f.raw) (λ s'. take_all_fields s' fs)
          (λ s'. take_all_fields s' gs)

  pub took-append :
      (s t u : S) (fs gs : List CommonField)
      → take_all_fields s fs ≡ took t
      → take_all_fields t gs ≡ took u
      → take_all_fields s (fs ++ gs) ≡ took u
  took-append s t u fs gs h g =
      take_all_fields-append s fs gs ∙ (ap (λ k. then_take k (λ s'. take_all_fields s' gs)) h ∙ g)

three_more : (n : ℕ) → 3 + n ≡ suc (suc (suc n))
three_more n = omega arith

module _ (f : CommonField) (v : IsField f) (rest : List ℕ) where
  size-encode : get_u16 (encode f rest) 0 ≡ length f.raw
  unfolding encode
  size-encode = u16_read (length f.raw) v.size_fits

  pub drop-encode :
      drop (common_field_header_size + get_u16 (encode f rest) 0) (encode f rest) ≡ rest
  unfolding encode
  drop-encode =
      ap (λ n. drop n (encode f rest)) (ap (◌+◌ 3) size-encode ∙ three_more (length f.raw))
      ∙ drop-append f.raw rest

  length-encode : length (encode f rest) ≡ common_field_header_size + length f.raw + length rest
  unfolding encode
  length-encode = omega (arith, length-append f.raw rest)

  module _ {ℓ} {S : Type ℓ} (take_field : S → ℕ → List ℕ → Taken S) where
    parse_field-encode :
        (s : S) → parse_field take_field s (encode f rest) ≡ take_field s f.type f.raw
    unfolding parse_field encode
    parse_field-encode s =
        let fits : ltb (length (encode f rest)) (common_field_header_size + length f.raw) ≡ false =
          ground (arith, length-encode) in
        let some_bytes : (length f.raw == 0) ≡ false = ground (arith, v.not_empty) in
        let type : f.type % 256 ≡ f.type = omega (arith, v.type_fits) in
        rw (u16_read (length f.raw) v.size_fits, fits, some_bytes, type, take-append f.raw rest)

fewer_fields :
    (fs : List CommonField) → All IsField fs → length fs ≤ length (fields_of encode fs [])
fewer_fields [] v = omega arith
fewer_fields (f ∷ fs) (v, vs) =
    omega (arith, length-encode f v (fields_of encode fs []), fewer_fields fs vs)

module _ {ℓ} {S : Type ℓ} (take_field : S → ℕ → List ℕ → Taken S) where
  read_one :
      (fuel : ℕ) (s : S) (f : CommonField) (rest : List ℕ)
      → IsField f
      → parse_common_fields take_field (suc fuel) s (encode f rest)
        ≡ then_parse (take_field s f.type f.raw) (λ s'.
          moved
            (common_field_header_size + length f.raw)
            (parse_common_fields take_field fuel s' rest))
  unfolding parse_common_fields
  read_one fuel s f rest v =
      let more : ltb common_field_header_size (length (encode f rest)) ≡ true =
        ground (arith, length-encode f v rest, v.not_empty) in
      rw
        (more, parse_field-encode f v rest take_field s, drop-encode f v rest, size-encode f v rest)

  read_all :
      (fuel : ℕ) (s s' : S) (fs : List CommonField)
      → All IsField fs
      → take_all_fields take_field s fs ≡ took s'
      → length fs < fuel
      → parse_common_fields take_field fuel s (fields_of encode fs [])
        ≡ parsed s' (length (fields_of encode fs []))
  unfolding parse_common_fields
  read_all zero s s' fs v h enough = absurd (omega arith)
  read_all (suc fuel) s s' [] v h enough = ap (λ t. then_parse t (λ u. parsed u 0)) h
  read_all (suc fuel) s s' (f ∷ fs) (v, vs) h enough =
      let rest = fields_of encode fs [] in
      read_one fuel s f rest v
      ∙ then_parse-took (take_field s f.type f.raw) (λ u. take_all_fields take_field u fs)
          (λ u.
            moved (common_field_header_size + length f.raw)
              (parse_common_fields take_field fuel u rest))
          s' (length (encode f rest)) h
          (λ u g.
            ap (moved (common_field_header_size + length f.raw))
              (read_all fuel u s' fs vs g (omega arith))
            ∙ ap (parsed s') (sym (length-encode f v rest)))

  -- Fields written one behind the other, each with a type of a byte and with some bytes but less
  -- than 2 ^ 16, are read as the record takes them one by one, to the last byte.
  pub parse_common_fields-bytes_of :
      (s s' : S) (fs : List CommonField)
      → All IsField fs
      → take_all_fields take_field s fs ≡ took s'
      → parse_common_fields take_field (suc (length (bytes_of fs))) s (bytes_of fs)
        ≡ parsed s' (length (bytes_of fs))
  parse_common_fields-bytes_of s s' fs v h =
      read_all (suc (length (fields_of encode fs []))) s s' fs v h
        (omega (arith, fewer_fields fs v))

module _ {ℓ} {S : Type ℓ} where
  moved-enough : (n : ℕ) (p : Parsed S) → p ≢ out_of_fuel → moved n p ≢ out_of_fuel
  moved-enough n (parsed s m) h e = absurd (cc e)
  moved-enough n (failed x) h e = absurd (cc e)
  moved-enough n out_of_fuel h e = h e

  then_parse-enough :
      (t : Taken S) (k : S → Parsed S)
      → ((s : S) → k s ≢ out_of_fuel)
      → then_parse t k ≢ out_of_fuel
  then_parse-enough (took s) k h e = h s e
  then_parse-enough (threw x) k h e = absurd (cc e)

  -- Whatever the bytes are, the loop over them ends within one turn more than there are bytes:
  -- it returns, or a field throws.
  pub parse_common_fields_total :
      (take_field : S → ℕ → List ℕ → Taken S) (fuel : ℕ) (s : S) (bytes : List ℕ)
      → length bytes < fuel
      → parse_common_fields take_field fuel s bytes ≢ out_of_fuel
  unfolding parse_common_fields
  parse_common_fields_total take_field zero s bytes h = absurd (omega arith)
  parse_common_fields_total take_field (suc fuel) s bytes h =
      let step = common_field_header_size + get_u16 bytes 0 in
      let next : S → Parsed S =
        λ u. moved step (parse_common_fields take_field fuel u (drop step bytes)) in
      let turn : Bool → Parsed S =
        λ b. if b then then_parse (parse_field take_field s bytes) next else parsed s 0 in
      elim (Bool-cases (ltb common_field_header_size (length bytes))) [
        | inl more ↦
            subst (λ b. turn b ≢ out_of_fuel) (sym more)
              (then_parse-enough (parse_field take_field s bytes) next (λ u.
                moved-enough step (parse_common_fields take_field fuel u (drop step bytes)) (
                  parse_common_fields_total take_field fuel u (drop step bytes)
                    (omega (arith, length-drop step bytes, ltb→lt 3 (length bytes) more)))))
        | inr done ↦ subst (λ b. turn b ≢ out_of_fuel) (sym done) (λ e. absurd (cc e))
      ]
