-- ===== src/Calendar/Specials.antt =====
-- The fields of an appointment that stand in no link table, as BuildFields of src/r_calendar.cc
-- writes them and ParseField reads them.
use barry.Fields.Reading.{IsField, take_all_fields}
use barry.Fields.Sharing.{u64_field-IsField}
use barry.Fields.TimeReading.{IsZone}
use barry.Fields.{CommonField, IConverter, u8_field, u16_field, u64_field, took}
use barry.Protocol.Numbers.{u16_read, u32_read}
use barry.Protocol.{u32_bytes, get_u32}
use barry.Recurrence
use barry.Recurrence.{RecurBase, returned}
use barry.TimeZones.{get_static_time_zone_code}
use barry.Calendar.Stages.{IsUnknown}
use barry.Calendar.{
  Calendar, code_of, take_other, take_code, take_field, free_busy_range_high, class_range_high,
  no_calendar_id,
}
use barry.Prelude.{
  ℕ, ◌+◌, ◌*◌, ◌/◌, ◌%◌, ◌^◌, ◌<◌, ◌≤◌, ◌≡◌, sym, ap, ◌∙◌, Bool, true, false, Option, List, [], ◌∷◌,
  ◌++◌, ltb, ◌==◌, if◌then◌else◌, All, arith, pos, Bool-cases, inl, inr,
}

pub unknown_kept :
    (ic : Option IConverter) (cal : Calendar) (us : List CommonField) (f : CommonField)
    → IsUnknown f
    → take_field ic (record cal { unknowns = us }) f.type f.raw
      ≡ took (record cal { unknowns = us ++ (f ∷ []) })
unfolding take_field take_other Recurrence.parse_field
unknown_kept ic cal us f v =
    let m : Calendar = record cal { unknowns = us } in
    ap (λ c. take_code ic m f.raw c f.type) v.no_code ∙ rw v.no_recurrence

module _ (ic : Option IConverter) where
  unfoldable pub zone_fields : Bool → ℕ → List CommonField
  zone_fields b code = if b then u16_field 0x1e code ∷ [] else []

  pub take-zone :
      (s : Calendar) (b : Bool) (code : ℕ)
      → s.time_zone_code ≡ get_static_time_zone_code (pos 0) (pos 0)
      → s.time_zone_valid ≡ false
      → IsZone b code
      → take_all_fields (take_field ic) s (zone_fields b code)
        ≡ took (record s { time_zone_code = code; time_zone_valid = b })
  unfolding zone_fields take_field code_of u16_field
  take-zone s true code c d v =
      ap (λ n. took (record s { time_zone_code = n; time_zone_valid = true })) (u16_read code v)
  take-zone s false code c d v =
      λ i. took (record s { time_zone_code = (c ∙ v) i; time_zone_valid = d i })

  pub take-flags :
      (s u : Calendar) (free_busy class : ℕ) (rest : List CommonField)
      → free_busy ≤ free_busy_range_high
      → class ≤ class_range_high
      → take_all_fields
          (take_field ic)
          (record s { free_busy_flag = free_busy; class_flag = class })
          rest
        ≡ took u
      → take_all_fields (take_field ic) s (u8_field 0x1c free_busy ∷ (u8_field 0x28 class ∷ rest))
        ≡ took u
  unfolding take_field code_of u8_field
  take-flags s u free_busy class rest f c h =
      let a : free_busy % 256 ≡ free_busy = omega arith in
      let b : class % 256 ≡ class = omega arith in
      let in_a : ltb free_busy_range_high free_busy ≡ false = ground arith in
      let in_b : ltb class_range_high class ≡ false = ground arith in rw (a, in_a, b, in_b) h

  unfoldable pub id_fields : ℕ → List CommonField
  id_fields id = if id == no_calendar_id then [] else u64_field 0x2b id ∷ []

  u64_read :
      (n : ℕ)
      → n < 2 ^ 64
      → get_u32 (u32_bytes (n % 2 ^ 32) ++ u32_bytes (n / 2 ^ 32)) 0
          + 2 ^ 32 * get_u32 (u32_bytes (n % 2 ^ 32) ++ u32_bytes (n / 2 ^ 32)) 4
        ≡ n
  u64_read n h =
      let low : n % 2 ^ 32 < 2 ^ 32 = omega arith in
      let high : n / 2 ^ 32 < 2 ^ 32 = omega arith in
      (λ i. u32_read (n % 2 ^ 32) low i + 2 ^ 32 * u32_read (n / 2 ^ 32) high i) ∙ omega arith

  is_same : (id : ℕ) → (id == no_calendar_id) ≡ true → id ≡ no_calendar_id
  is_same id h = ground arith

  pub take-id :
      (s : Calendar) (id : ℕ)
      → s.calendar_id ≡ no_calendar_id
      → id < 2 ^ 64
      → take_all_fields (take_field ic) s (id_fields id) ≡ took (record s { calendar_id = id })
  unfolding id_fields take_field code_of u64_field
  take-id s id c h = elim (Bool-cases (id == no_calendar_id)) [
    | inl same ↦ rw same (λ i. took (record s { calendar_id = (c ∙ sym (is_same id same)) i }))
    | inr differs ↦ rw differs (λ i. took (record s { calendar_id = u64_read id h i }))
  ]

  pub id_fields-IsField : (id : ℕ) → All IsField (id_fields id)
  unfolding id_fields
  id_fields-IsField id = by_flag (id == no_calendar_id)
    where
      by_flag : (b : Bool) → All IsField (if b then [] else u64_field 0x2b id ∷ [])
      by_flag true = tt
      by_flag false = (u64_field-IsField 0x2b id (omega arith), tt)
