-- ===== src/Recurrence/Parsing.antt =====
-- `ParseField` on what `BuildRecurrenceData` writes, both of src/r_recur_base.cc.
use barry.Protocol.Numbers.{u16_read, u32_read}
use barry.Prelude.{
  ℕ, ◌+◌, ◌-◌, ◌*◌, ◌/◌, ◌%◌, ◌≤◌, ◌<◌, ◌≡◌, refl, ap, ◌∙◌, Bool, true, false, Option, some, List,
  ◌∷◌, ◌++◌, ◌==◌, ltb, leb, length, if◌then◌else◌, ℤ, pos, negsuc, arith,
}
use barry.Protocol.{u16_bytes, u32_bytes}
use barry.Recurrence.{
  type_code, details, RecurringCodeType, day, month_by_date, month_by_day, year_by_date,
  year_by_day, week, RecurBase, wrote, not_recurring, stdc_min1900_diff, time2min, min2time, u32_of,
  no_time, parse_limits, parse_details, parse_recurrence_data, parse_field, end_minutes,
  build_recurrence_data, not_enough_data, minus, field_size,
}
use barry.Recurrence.Rules.{
  Days, monthly_on_date, monthly_on_day, yearly_on_date, yearly_on_day, Rule, days_of, until_of,
  read_rule, parse_built, IsEnd, IsRule, whole_minute,
}

minutes_of : (p : Bool) (t : ℤ) → ℕ
minutes_of p t = if p then no_time else u32_of (time2min t)

min2time-minus : (m : ℕ) → m < no_time → min2time m ≡ minus (m * 60) (stdc_min1900_diff * 60)
unfolding min2time
min2time-minus m h = ground arith

minus-add : (a b : ℕ) → minus (a + b) b ≡ pos a
minus-add a b = ground arith

minus-minus : (a b : ℕ) → a ≤ b → minus (b - a) b ≡ minus 0 a
minus-minus a b h = ground arith

-- The minutes of an end, and what the parser makes of them.
abbrev pub IsStored : (t : ℤ) → ℕ → Type 0
IsStored t m = (u32_of (time2min t) ≡ m) × (m < no_time) × (min2time m ≡ whole_minute t)

pub time2min-IsStored : (t : ℤ) → IsEnd false t → (m : ℕ) × IsStored t m
unfolding time2min
time2min-IsStored (pos t) (some_end, fits) =
    let m = t / 60 + stdc_min1900_diff in
    let e : m * 60 ≡ t / 60 * 60 + stdc_min1900_diff * 60 = omega arith in
    (
      m,
      (
        ground arith,
        fits,
        min2time-minus m fits
            ∙ (ap (λ k. minus k (stdc_min1900_diff * 60)) e
                ∙ minus-add (t / 60 * 60) (stdc_min1900_diff * 60)),
      ),
    )
time2min-IsStored (negsuc n) h =
    let q = (n + 1) / 60 in
    let m = stdc_min1900_diff - q in
    let small : m < no_time = omega arith in
    let e : m * 60 ≡ stdc_min1900_diff * 60 - q * 60 = omega arith in
    (
      m,
      (
        ground arith,
        small,
        min2time-minus m small
            ∙ (ap (λ k. minus k (stdc_min1900_diff * 60)) e
                ∙ minus-minus (q * 60) (stdc_min1900_diff * 60) (omega arith)),
      ),
    )

-- The field, with its parts apart.
abbrev pub field_bytes : RecurBase → RecurringCodeType → ℕ → ℕ → List ℕ
field_bytes r k start e =
    type_code k ∷ 0 ∷ (u16_bytes r.interval ++ (u32_bytes start ++ (u32_bytes e ++ details r k)))

byte : (n : ℕ) → n < 256 → n % 256 ≡ n
byte n h = omega arith

module _ (r s : RecurBase) (v : IsRule r) where
  told : Days → Option Rule
  told d =
      some
        (record { days = d; every = s.interval; until = until_of s.perpetual s.recurring_end_time })

  read_details :
      (k : RecurringCodeType) (start e : ℕ)
      → read_rule (parse_details s (field_bytes r k start e)) ≡ told (days_of r k)
  unfolding parse_details told
  read_details day start e = refl
  read_details month_by_date start e =
      λ i. told (monthly_on_date (byte r.day_of_month v.day_of_month_fits i))
  read_details month_by_day start e = λ i. told (
      monthly_on_day (byte r.day_of_week v.day_of_week_fits i)
        (byte r.week_of_month v.week_of_month_fits i))
  read_details year_by_date start e = λ i. told (
      yearly_on_date (byte r.day_of_month v.day_of_month_fits i)
        (byte r.month_of_year v.month_of_year_fits i))
  read_details year_by_day start e = λ i. told (
      yearly_on_day (byte r.day_of_week v.day_of_week_fits i)
        (byte r.week_of_month v.week_of_month_fits i) (byte r.month_of_year v.month_of_year_fits i))
  read_details week start e = refl

module _ (r s : RecurBase) (v : IsRule r) (k : RecurringCodeType) (start : ℕ) where
  abbrev counted : RecurBase
  counted = record s { interval = r.interval }

  limits-never :
      parse_limits s (field_bytes r k start no_time) ≡ record counted { perpetual = true }
  unfolding parse_limits
  limits-never =
      let some_interval : ltb r.interval 1 ≡ false = ground (arith, v.some_interval) in
      rw (u16_read r.interval v.interval_fits, some_interval)

  limits-until :
      (m : ℕ)
      → m < no_time
      → parse_limits s (field_bytes r k start m)
        ≡ record counted { recurring_end_time = min2time m; perpetual = false }
  unfolding parse_limits
  limits-until m h =
      let some_interval : ltb r.interval 1 ≡ false = ground (arith, v.some_interval) in
      let ends : (m == no_time) ≡ false = ground arith in
      rw (u16_read r.interval v.interval_fits, some_interval, u32_read m (omega arith), ends)

  read_ends :
      (p : Bool) (t : ℤ)
      → IsEnd p t
      → read_rule (parse_recurrence_data s (field_bytes r k start (minutes_of p t)))
        ≡ some
            (record { days = days_of r k; every = r.interval; until = until_of p (whole_minute t) })
  unfolding parse_recurrence_data minutes_of told
  read_ends true t h =
      ap (λ u. read_rule (parse_details u (field_bytes r k start no_time))) limits-never
      ∙ read_details r (record counted { perpetual = true }) v k start no_time
  read_ends false t h =
      let stored = time2min-IsStored t h in
      let m = stored.0 in
      ap (λ n. read_rule (parse_recurrence_data s (field_bytes r k start n))) stored.1.0
      ∙ (ap (λ u. read_rule (parse_details u (field_bytes r k start m))) (limits-until m stored.1.1)
          ∙ (read_details r (record counted { recurring_end_time = min2time m; perpetual = false })
                v k start m
              ∙ ap (λ u. some (record { days = days_of r k; every = r.interval; until = some u }))
                  stored.1.2))

length-field_bytes :
    (r : RecurBase) (k : RecurringCodeType) (start e : ℕ)
    → leb field_size (length (field_bytes r k start e)) ≡ true
length-field_bytes r day start e = refl
length-field_bytes r month_by_date start e = refl
length-field_bytes r month_by_day start e = refl
length-field_bytes r year_by_date start e = refl
length-field_bytes r year_by_day start e = refl
length-field_bytes r week start e = refl

-- The rule with its end at a whole minute.
abbrev pub whole_minutes : RecurBase → Rule
whole_minutes r = record {
  days = days_of r r.recurring_type;
  every = r.interval;
  until = until_of r.perpetual (whole_minute r.recurring_end_time);
}

-- Whatever a record held before, after it parsed what BuildRecurrenceData wrote of a record that
-- recurs, whose numbers fit their bytes and whose end is never or a time the field can hold, it
-- has the rule of that record, with its end at a whole minute.
pub parse-build :
    (start : ℤ) (r s : RecurBase)
    → IsRule r
    → read_rule (parse_built s (build_recurrence_data start r)) ≡ some (whole_minutes r)
unfolding build_recurrence_data end_minutes minutes_of parse_field
parse-build start r s v =
    let k = r.recurring_type in
    let st = u32_of (time2min start) in
    let e = minutes_of r.perpetual r.recurring_end_time in
    ap (λ b. read_rule (parse_built s (if b then wrote (field_bytes r k st e) else not_recurring)))
      v.recurs
    ∙ (ap
          (λ b.
            read_rule
              (if b then parse_recurrence_data s (field_bytes r k st e) else not_enough_data s))
          (length-field_bytes r k st e)
        ∙ read_ends r s v k st r.perpetual r.recurring_end_time v.ends)
