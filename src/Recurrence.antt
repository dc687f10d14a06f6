-- ===== src/Recurrence.antt =====
-- The recurrence of an appointment, src/r_recur_base.cc, with the times of src/time.cc.
--
-- A time_t and a min1900_t are taken as numbers without a bound, as the 64-bit types hold every
-- value that arises. The fields of the record keep what the source declares: `week_days` is a
-- byte, and the other details are uint16_t.
pub mod Rules
pub mod Parsing
use barry.Prelude.{
  ℕ, ◌+◌, ◌-◌, ◌*◌, ◌/◌, ◌%◌, ◌^◌, Bool, true, false, List, [], ◌∷◌, ◌++◌, ltb, leb, ◌==◌,
  if◌then◌else◌, length, ℤ, pos, negsuc,
}
use barry.Protocol.{get_u8, get_u16, get_u32, u16_bytes, u32_bytes}

-- Minutes from the start of 1900 to the start of 1970.
abbrev pub stdc_min1900_diff : ℕ
stdc_min1900_diff = 70 * (365 * 1440) + 17 * 1440

abbrev pub no_time : ℕ
no_time = 0xffffffff

-- The difference of two numbers.
abbrev pub minus : ℕ → ℕ → ℤ
minus a b = if leb b a then pos (a - b) else negsuc (b - a - 1)

-- The value that a uint32_t takes.
abbrev pub u32_of : ℤ → ℕ
u32_of (pos n) = n % 2 ^ 32
u32_of (negsuc n) = 2 ^ 32 - 1 - n % 2 ^ 32

-- The division is rounded towards zero.
unfoldable pub time2min : ℤ → ℤ
time2min (pos t) = if t == 0 then pos no_time else pos (t / 60 + stdc_min1900_diff)
time2min (negsuc n) = minus stdc_min1900_diff ((n + 1) / 60)

-- `min2time` of a value that was read as a uint32_t.
unfoldable pub min2time : ℕ → ℤ
min2time m = if m == no_time then pos 0 else minus (m * 60) (stdc_min1900_diff * 60)

pub data RecurringCodeType : Type 0 where
  day month_by_date month_by_day year_by_date year_by_day week : RecurringCodeType

abbrev pub type_code : RecurringCodeType → ℕ
type_code day = 0x01
type_code month_by_date = 0x03
type_code month_by_day = 0x04
type_code year_by_date = 0x05
type_code year_by_day = 0x06
type_code week = 0x0c

pub record RecurBase : Type 0 where
  pub recurring : Bool
  pub recurring_type : RecurringCodeType
  pub interval : ℕ
  pub recurring_end_time : ℤ
  pub perpetual : Bool
  pub day_of_week : ℕ
  pub week_of_month : ℕ
  pub day_of_month : ℕ
  pub month_of_year : ℕ
  pub week_days : ℕ

-- The record as `Clear` leaves it.
unfoldable pub cleared : RecurBase
cleared = record {
  recurring = false;
  recurring_type = week;
  interval = 1;
  recurring_end_time = pos 0;
  perpetual = false;
  day_of_week = 0;
  week_of_month = 0;
  day_of_month = 0;
  month_of_year = 0;
  week_days = 0;
}

-- How a call ended, with the record as it left it.
pub data Outcome : Type 0 where
  returned : Bool → RecurBase → Outcome
  not_enough_data : RecurBase → Outcome
  unknown_type : RecurBase → Outcome

-- `sizeof(CalendarRecurrenceDataField)`.
abbrev pub field_size : ℕ
field_size = 18

abbrev pub fieldcode_recurrence_data : ℕ
fieldcode_recurrence_data = 0x0c

-- The end of the recurrence, and the interval.
unfoldable pub parse_limits : RecurBase → List ℕ → RecurBase
unfolding min2time
parse_limits r rec =
    let i = get_u16 rec 2 in
    let counted : RecurBase = record r { interval = if ltb i 1 then 1 else i } in
    let e = get_u32 rec 8 in
    if e == no_time
    then record counted { perpetual = true }
    else record counted { recurring_end_time = min2time e; perpetual = false }

-- The switch over the type, and what follows it.
unfoldable pub parse_details : RecurBase → List ℕ → Outcome
parse_details r rec =
    let t = get_u8 rec 0 in
    if t == type_code day
    then returned true (record r { recurring_type = day; recurring = true })
    else if t == type_code month_by_date
    then returned true (record r {
      recurring_type = month_by_date;
      day_of_month = get_u8 rec 12;
      recurring = true;
    })
    else if t == type_code month_by_day
    then returned true (record r {
      recurring_type = month_by_day;
      day_of_week = get_u8 rec 12;
      week_of_month = get_u8 rec 13;
      recurring = true;
    })
    else if t == type_code year_by_date
    then returned true (record r {
      recurring_type = year_by_date;
      day_of_month = get_u8 rec 12;
      month_of_year = get_u8 rec 14;
      recurring = true;
    })
    else if t == type_code year_by_day
    then returned true (record r {
      recurring_type = year_by_day;
      day_of_week = get_u8 rec 12;
      week_of_month = get_u8 rec 13;
      month_of_year = get_u8 rec 14;
      recurring = true;
    })
    else if t == type_code week
    then returned true
        (record r { recurring_type = week; week_days = get_u8 rec 12; recurring = true })
    else unknown_type r

unfoldable pub parse_recurrence_data : RecurBase → List ℕ → Outcome
parse_recurrence_data r rec = parse_details (parse_limits r rec) rec

-- `ParseField` of a field with this type code and these bytes.
unfoldable pub parse_field : RecurBase → ℕ → List ℕ → Outcome
parse_field r type bytes =
    if type == fieldcode_recurrence_data
    then if leb field_size (length bytes) then parse_recurrence_data r bytes else not_enough_data r
    else returned false r

-- The six bytes of the union, which were set to zero before.
abbrev pub details : RecurBase → RecurringCodeType → List ℕ
details r day = 0 ∷ 0 ∷ 0 ∷ 0 ∷ 0 ∷ 0 ∷ []
details r month_by_date = r.day_of_month % 256 ∷ 0 ∷ 0 ∷ 0 ∷ 0 ∷ 0 ∷ []
details r month_by_day = r.day_of_week % 256 ∷ r.week_of_month % 256 ∷ 0 ∷ 0 ∷ 0 ∷ 0 ∷ []
details r year_by_date = r.day_of_month % 256 ∷ 0 ∷ r.month_of_year % 256 ∷ 0 ∷ 0 ∷ 0 ∷ []
details r year_by_day =
    r.day_of_week % 256 ∷ r.week_of_month % 256 ∷ r.month_of_year % 256 ∷ 0 ∷ 0 ∷ 0 ∷ []
details r week = r.week_days ∷ 0 ∷ 0 ∷ 0 ∷ 0 ∷ 0 ∷ []

unfoldable pub end_minutes : RecurBase → ℕ
end_minutes r = if r.perpetual then no_time else u32_of (time2min r.recurring_end_time)

pub data Built : Type 0 where
  wrote : List ℕ → Built
  not_recurring : Built

-- `BuildRecurrenceData`: the bytes at `data`. The default of its switch is never taken, since
-- `recurring_type` is one of the six.
unfoldable pub build_recurrence_data : ℤ → RecurBase → Built
build_recurrence_data start r =
    if r.recurring
    then wrote (
        type_code r.recurring_type
        ∷ 0
        ∷ (u16_bytes r.interval
            ++ (u32_bytes (u32_of (time2min start))
                ++ (u32_bytes (end_minutes r) ++ details r r.recurring_type))))
    else not_recurring
