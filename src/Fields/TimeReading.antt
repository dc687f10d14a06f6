-- ===== src/Fields/TimeReading.antt =====
-- The times and the recurrence of a record, read back from the fields that src/record.cc and
-- src/r_recur_base.cc write of them.
use barry.Fields.Reading.{IsField, take_all_fields}
use barry.Fields.Recurring.{
  is_valid, optional_time_field, recurrence_bytes, recurrence_field, take_time, taken_recurrence,
}
use barry.Fields.{u32_field, time_field, Taken, took, then_take}
use barry.Protocol.Numbers.{u32_read}
use barry.Protocol.{u32_bytes, get_u32}
use barry.Recurrence
use barry.Recurrence.{
  RecurBase, Outcome, returned, not_enough_data, unknown_type, Built, wrote, not_recurring, details,
  end_minutes, RecurringCodeType, day, month_by_date, month_by_day, year_by_date, year_by_day, week,
  stdc_min1900_diff, no_time, time2min, min2time, u32_of, build_recurrence_data,
}
use barry.Recurrence.Parsing.{parse-build, whole_minutes, time2min-IsStored, field_bytes}
use barry.Recurrence.Rules.{Rule, rule_of, read_rule, parse_built, IsRule, whole_minute}
use barry.TimeZones.{get_static_time_zone_code}
use barry.Prelude.{
  ℕ, zero, suc, ◌+◌, ◌/◌, ◌^◌, ◌<◌, ◌≡◌, refl, sym, ap, ◌∙◌, Bool, true, false, some, List, [], ℤ,
  pos, negsuc, length, All, arith, if◌then◌else◌,
}

-- A time that a record can hold: not before 1970, and not behind the minutes of the field.
abbrev pub IsTime : ℤ → Type 0
IsTime (pos t) = t / 60 + stdc_min1900_diff < no_time
IsTime (negsuc n) = ⊥

-- Without a valid time zone the code is that of GMT, as in a cleared record.
abbrev pub IsZone : Bool → ℕ → Type 0
IsZone true code = code < 2 ^ 16
IsZone false code = get_static_time_zone_code (pos 0) (pos 0) ≡ code

time_read :
    (t : ℤ)
    → is_valid t ≡ true
    → IsTime t
    → min2time (get_u32 (u32_bytes (u32_of (time2min t))) 0) ≡ whole_minute t
time_read (pos zero) h v = absurd (cc h)
time_read (negsuc n) h v = absurd v
time_read (pos (suc n)) h v =
    let stored = time2min-IsStored (pos (suc n)) (omega arith, v) in
    ap (λ k. min2time (get_u32 (u32_bytes k) 0)) stored.1.0
    ∙ (ap min2time (u32_read stored.0 (omega (arith, stored.1.1))) ∙ stored.1.2)

-- The member takes the time of the field that was written of it.
pub take_time-time_field {ℓ} :
    {S : Type ℓ} (type : ℕ) (t : ℤ) (set : ℤ → S) (other : Taken S)
    → is_valid t ≡ true
    → IsTime t
    → take_time (time_field type t).raw set other ≡ took (set (whole_minute t))
unfolding time_field u32_field take_time
take_time-time_field type t set other h v = ap (λ k. took (set k)) (time_read t h v)

module _ {ℓ} {S : Type ℓ} (take_field : S → ℕ → List ℕ → Taken S) (type : ℕ) (s : S) where
  pub take-optional_time_field :
      (set : ℤ → S) (other : List ℕ → Taken S) (t : ℤ)
      → ((raw : List ℕ) → take_field s type raw ≡ take_time raw set (other raw))
      → set (pos 0) ≡ s
      → IsTime t
      → take_all_fields take_field s (optional_time_field type t) ≡ took (set (whole_minute t))
  unfolding time_field u32_field take_time
  take-optional_time_field set other (pos zero) h c v = ap took (sym c)
  take-optional_time_field set other (negsuc n) h c v = absurd v
  take-optional_time_field set other (pos (suc n)) h c v =
      let raw = (time_field type (pos (suc n))).raw in
      ap (λ k. then_take k took)
        (h raw ∙ take_time-time_field type (pos (suc n)) set (other raw) refl v)

pub optional_time_field-IsField :
    (type : ℕ) (t : ℤ) → type < 256 → All IsField (optional_time_field type t)
unfolding time_field u32_field
optional_time_field-IsField type (pos zero) h = tt
optional_time_field-IsField type (negsuc n) h = tt
optional_time_field-IsField type (pos (suc n)) h =
    (record { type_fits = h; not_empty = omega arith; size_fits = omega arith }, tt)

-- The rule of a record that recurs.
abbrev pub Repeats : RecurBase → Bool → Type 0
Repeats r true = IsRule r
Repeats r false = Unit

-- What a record that held `base` has read of the recurrence `r`: its rule with the end at a whole
-- minute, or nothing where it does not recur.
abbrev pub IsRead : RecurBase → RecurBase → Bool → RecurBase → Type 0
IsRead r base true r' = rule_of r' ≡ whole_minutes r
IsRead r base false r' = r' ≡ base

read_rule-returned :
    (o : Outcome) (w : Rule)
    → read_rule o ≡ some w
    → (r : RecurBase) × (o ≡ returned true r) × (rule_of r ≡ w)
read_rule-returned (returned true r) w h = (r, refl, cc h)
read_rule-returned (returned false r) w h = absurd (cc h)
read_rule-returned (not_enough_data r) w h = absurd (cc h)
read_rule-returned (unknown_type r) w h = absurd (cc h)

module _ {ℓ} {S : Type ℓ} (take_field : S → ℕ → List ℕ → Taken S) (s : S) (base : RecurBase)
    (set : RecurBase → S) (unknown : List ℕ → S) where
  take-built :
      (b : Built) (w : Rule)
      → ((raw : List ℕ)
          → take_field s Recurrence.fieldcode_recurrence_data raw
            ≡ taken_recurrence
                (Recurrence.parse_field base Recurrence.fieldcode_recurrence_data raw)
                set
                (unknown raw))
      → read_rule (parse_built base b) ≡ some w
      → (r : RecurBase) × (take_all_fields take_field s (recurrence_bytes b) ≡ took (set r))
        × (rule_of r ≡ w)
  take-built (wrote bytes) w h g =
      let (r, e, same) =
        read_rule-returned (Recurrence.parse_field base Recurrence.fieldcode_recurrence_data bytes)
          w g in
      (
        r,
        ap (λ k. then_take k took) (h bytes ∙ ap (λ o. taken_recurrence o set (unknown bytes)) e),
        same,
      )
  take-built not_recurring w h g = absurd (cc g)

  pub take-recurrence_field :
      (start : ℤ) (r : RecurBase)
      → ((raw : List ℕ)
          → take_field s Recurrence.fieldcode_recurrence_data raw
            ≡ taken_recurrence
                (Recurrence.parse_field base Recurrence.fieldcode_recurrence_data raw)
                set
                (unknown raw))
      → set base ≡ s
      → (b : Bool) → r.recurring ≡ b
      → Repeats r b
      → (r' : RecurBase) × (take_all_fields take_field s (recurrence_field start r) ≡ took (set r'))
        × IsRead r base b r'
  unfolding recurrence_field
  take-recurrence_field start r h c true e v =
      let (r', taken, same) =
        take-built (build_recurrence_data start r) (whole_minutes r) h
          (parse-build start r base v) in
      (
        r',
        ap
              (λ b.
                take_all_fields take_field s
                  (if b then recurrence_bytes (build_recurrence_data start r) else []))
              e
            ∙ taken,
        same,
      )
  take-recurrence_field start r h c false e v = (
    base,
    ap
          (λ b.
            take_all_fields take_field s
              (if b then recurrence_bytes (build_recurrence_data start r) else []))
          e
        ∙ ap took (sym c),
    refl,
  )

length-details : (r : RecurBase) (k : RecurringCodeType) → length (details r k) ≡ 6
length-details r day = refl
length-details r month_by_date = refl
length-details r month_by_day = refl
length-details r year_by_date = refl
length-details r year_by_day = refl
length-details r week = refl

pub recurrence_field-IsField : (start : ℤ) (r : RecurBase) → All IsField (recurrence_field start r)
unfolding recurrence_field build_recurrence_data
recurrence_field-IsField start r = by_flag r.recurring
  where
    by_flag :
        (b : Bool)
        → All IsField (
            if b
            then recurrence_bytes (
                if b
                then wrote
                    (field_bytes r r.recurring_type (u32_of (time2min start)) (end_minutes r))
                else not_recurring)
            else [])
    by_flag true = (
      record {
        type_fits = omega arith;
        not_empty = omega arith;
        size_fits = omega (arith, length-details r r.recurring_type);
      },
      tt,
    )
    by_flag false = tt

pub time_field-IsField : (type : ℕ) (t : ℤ) → type < 256 → IsField (time_field type t)
unfolding time_field u32_field
time_field-IsField type t h = record {
  type_fits = h;
  not_empty = omega arith;
  size_fits = omega arith;
}
