-- ===== src/Task/Parts.antt =====
-- The numbers and times of a task, as BuildFields of src/r_task.cc writes them and ParseField
-- reads them.
use barry.Fields.Reading.{IsField, take_all_fields}
use barry.Fields.Recurring.{is_valid, take_time}
use barry.Fields.Sharing.{u8_field-IsField, u32_field-IsField, optional-IsField}
use barry.Fields.TimeReading.{IsZone, IsTime, take_time-time_field, time_field-IsField}
use barry.Fields.{CommonField, IConverter, u8_field, u32_field, time_field, took, then_take}
use barry.Protocol.Numbers.{u16_read}
use barry.Recurrence
use barry.Recurrence.Rules.{whole_minute}
use barry.TimeZones.{get_static_time_zone_code}
use barry.Task.{
  Task, code_of, other, date, alarm_range_high, priority_range_high, status_range_high, take_other,
  take_code, take_field, due_fields, alarm_fields, zone_fields,
}
use barry.Prelude.{
  ℕ, zero, suc, ◌%◌, ◌≤◌, ◌≡◌, refl, ap, ◌∙◌, Bool, true, false, Option, List, [], ◌∷◌, ◌++◌, ltb,
  ◌==◌, if◌then◌else◌, All, arith, ℤ, pos, negsuc,
}

-- A field that no member of a task is read from.
pub record IsUnknown (f : CommonField) : Type 0 where
  pub field : IsField f
  pub no_code : code_of f.type ≡ other
  pub no_recurrence : (f.type == Recurrence.fieldcode_recurrence_data) ≡ false

-- The type of an alarm is written with its time only.
abbrev pub IsAlarm : Bool → ℕ → Type 0
IsAlarm true type = type ≤ alarm_range_high
IsAlarm false type = date ≡ type

pub unknowns-IsField : (us : List CommonField) → All IsUnknown us → All IsField us
unknowns-IsField [] v = tt
unknowns-IsField (f ∷ fs) (v, vs) = (v.field, unknowns-IsField fs vs)

module _ (ic : Option IConverter) where
  pub unknown_kept :
      (task : Task) (us : List CommonField) (f : CommonField)
      → IsUnknown f
      → take_field ic (record task { unknowns = us }) f.type f.raw
        ≡ took (record task { unknowns = us ++ (f ∷ []) })
  unfolding take_field take_other Recurrence.parse_field
  unknown_kept task us f v =
      let m : Task = record task { unknowns = us } in
      ap (λ c. take_code ic m f.raw c f.type) v.no_code ∙ rw v.no_recurrence

  pub take-flags :
      (s u : Task) (status priority : ℕ) (rest : List CommonField)
      → status ≤ status_range_high
      → priority ≤ priority_range_high
      → take_all_fields
          (take_field ic)
          (record s { status_flag = status; priority_flag = priority })
          rest
        ≡ took u
      → take_all_fields (take_field ic) s (u32_field 0x09 status ∷ (u32_field 0x0a priority ∷ rest))
        ≡ took u
  unfolding take_field code_of u32_field
  take-flags s u status priority rest f c h =
      let a : status % 256 ≡ status = omega arith in
      let b : priority % 256 ≡ priority = omega arith in
      let in_a : ltb status_range_high status ≡ false = ground arith in
      let in_b : ltb priority_range_high priority ≡ false = ground arith in rw (a, in_a, b, in_b) h

  pub take-zone :
      (s task : Task)
      → s.time_zone_code ≡ get_static_time_zone_code (pos 0) (pos 0)
      → s.time_zone_valid ≡ false
      → IsZone task.time_zone_valid task.time_zone_code
      → take_all_fields (take_field ic) s (zone_fields task)
        ≡ took (record s {
          time_zone_code = task.time_zone_code;
          time_zone_valid = task.time_zone_valid;
        })
  unfolding zone_fields take_field code_of u32_field
  take-zone s task c d = by_flag task.time_zone_valid task.time_zone_code
    where
      by_flag :
          (b : Bool) (code : ℕ)
          → IsZone b code
          → take_all_fields (take_field ic) s (if b then u32_field 0x10 code ∷ [] else [])
            ≡ took (record s { time_zone_code = code; time_zone_valid = b })
      by_flag true code v =
          ap (λ n. took (record s { time_zone_code = n; time_zone_valid = true })) (u16_read code v)
      by_flag false code v =
          λ i. took (record s { time_zone_code = (c ∙ v) i; time_zone_valid = d i })

  pub take-due_fields :
      (s : Task) (due : ℤ)
      → s.start_time ≡ pos 0
      → s.due_time ≡ pos 0
      → IsTime due
      → take_all_fields (take_field ic) s (due_fields due)
        ≡ took (record s { start_time = whole_minute due; due_time = whole_minute due })
  unfolding due_fields take_field code_of take_time time_field
  take-due_fields s (pos zero) c d v = λ i. took (record s { start_time = c i; due_time = d i })
  take-due_fields s (negsuc n) c d v = absurd v
  take-due_fields s (pos (suc n)) c d v =
      let t = pos (suc n) in
      let started : Task = record s { start_time = whole_minute t } in
      let rest = u32_field 0x08 1 ∷ (time_field 0x05 t ∷ []) in
      ap (λ k. then_take k (λ u. take_all_fields (take_field ic) u rest))
        (take_time-time_field 0x06 t (λ k. record s { start_time = k })
          (take_other ic s (time_field 0x06 t).raw 0x06) refl v)
      ∙ ap (λ k. then_take k took)
          (take_time-time_field 0x05 t (λ k. record started { due_time = k })
            (take_other ic started (time_field 0x05 t).raw 0x05) refl v)

  pub take-alarm_fields :
      (s task : Task)
      → s.alarm_time ≡ pos 0
      → s.alarm_type ≡ date
      → IsTime task.alarm_time
      → IsAlarm (is_valid task.alarm_time) task.alarm_type
      → take_all_fields (take_field ic) s (alarm_fields task)
        ≡ took
            (record s { alarm_time = whole_minute task.alarm_time; alarm_type = task.alarm_type })
  unfolding alarm_fields take_field code_of take_time time_field u8_field u32_field
  take-alarm_fields s task c d = by_time task.alarm_time task.alarm_type
    where
      by_time :
          (t : ℤ) (type : ℕ)
          → IsTime t
          → IsAlarm (is_valid t) type
          → take_all_fields (take_field ic) s (
              if is_valid t
              then u32_field 0x12 1 ∷ (u8_field 0x0e type ∷ (time_field 0x0f t ∷ []))
              else [])
            ≡ took (record s { alarm_time = whole_minute t; alarm_type = type })
      by_time (pos zero) type v w =
          λ i. took (record s { alarm_time = c i; alarm_type = (d ∙ w) i })
      by_time (negsuc n) type v w = absurd v
      by_time (pos (suc n)) type v w =
          let t = pos (suc n) in
          let typed : Task = record s { alarm_type = type } in
          let a : type % 256 ≡ type = omega arith in
          let in_a : ltb alarm_range_high type ≡ false = ground arith in
          rw (a, in_a)
            (ap (λ k. then_take k took)
              (take_time-time_field 0x0f t (λ k. record typed { alarm_time = k })
                (take_other ic typed (time_field 0x0f t).raw 0x0f) refl v))

pub zone_fields-IsField : (task : Task) → All IsField (zone_fields task)
unfolding zone_fields
zone_fields-IsField task =
    optional-IsField task.time_zone_valid (u32_field 0x10 task.time_zone_code)
      (u32_field-IsField 0x10 task.time_zone_code (omega arith))

-- Three fields that are written or not.
three-IsField :
    (b : Bool) (f g h : CommonField)
    → IsField f
    → IsField g
    → IsField h
    → All IsField (if b then f ∷ (g ∷ (h ∷ [])) else [])
three-IsField true f g h u v w = (u, (v, (w, tt)))
three-IsField false f g h u v w = tt

pub due_fields-IsField : (due : ℤ) → All IsField (due_fields due)
unfolding due_fields
due_fields-IsField due =
    three-IsField (is_valid due) (time_field 0x06 due) (u32_field 0x08 1) (time_field 0x05 due)
      (time_field-IsField 0x06 due (omega arith)) (u32_field-IsField 0x08 1 (omega arith))
      (time_field-IsField 0x05 due (omega arith))

pub alarm_fields-IsField : (task : Task) → All IsField (alarm_fields task)
unfolding alarm_fields
alarm_fields-IsField task =
    three-IsField (is_valid task.alarm_time) (u32_field 0x12 1) (u8_field 0x0e task.alarm_type)
      (time_field 0x0f task.alarm_time) (u32_field-IsField 0x12 1 (omega arith))
      (u8_field-IsField 0x0e task.alarm_type (omega arith))
      (time_field-IsField 0x0f task.alarm_time (omega arith))
