-- ===== src/Recurrence/Rules.antt =====
-- What a recurrence says: its rule, which forgets the members that its type does not use.
-- The records are those of src/r_recur_base.cc.
use barry.Prelude.{
  ℕ, ◌+◌, ◌*◌, ◌/◌, ◌^◌, ◌≤◌, ◌<◌, ◌≡◌, Bool, true, false, Option, none, some, ℤ, pos, negsuc,
}
use barry.Recurrence.{
  RecurringCodeType, day, month_by_date, month_by_day, year_by_date, year_by_day, week, RecurBase,
  Outcome, returned, Built, wrote, not_recurring, stdc_min1900_diff, no_time, parse_field,
  not_enough_data, unknown_type, fieldcode_recurrence_data, minus,
}

pub data Days : Type 0 where
  every_day : Days
  monthly_on_date : ℕ → Days
  monthly_on_day : ℕ → ℕ → Days
  yearly_on_date : ℕ → ℕ → Days
  yearly_on_day : ℕ → ℕ → ℕ → Days
  weekly_on : ℕ → Days

pub record Rule : Type 0 where
  pub days : Days
  pub every : ℕ
  -- None where it never ends.
  pub until : Option ℤ

abbrev pub days_of : RecurBase → RecurringCodeType → Days
days_of r day = every_day
days_of r month_by_date = monthly_on_date r.day_of_month
days_of r month_by_day = monthly_on_day r.day_of_week r.week_of_month
days_of r year_by_date = yearly_on_date r.day_of_month r.month_of_year
days_of r year_by_day = yearly_on_day r.day_of_week r.week_of_month r.month_of_year
days_of r week = weekly_on r.week_days

abbrev pub until_of : Bool → ℤ → Option ℤ
until_of true t = none
until_of false t = some t

-- The rule of a record that recurs.
abbrev pub rule_of : RecurBase → Rule
rule_of r = record {
  days = days_of r r.recurring_type;
  every = r.interval;
  until = until_of r.perpetual r.recurring_end_time;
}

-- What `ParseField` made of the field: the rule of the record, where it returned true.
abbrev pub read_rule : Outcome → Option Rule
read_rule (returned true r) = some (rule_of r)
read_rule (returned false r) = none
read_rule (not_enough_data r) = none
read_rule (unknown_type r) = none

-- `ParseField` of what `BuildRecurrenceData` wrote.
abbrev pub parse_built : RecurBase → Built → Outcome
parse_built s (wrote bytes) = parse_field s fieldcode_recurrence_data bytes
parse_built s not_recurring = returned false s

-- A time that the end can be: neither 0, nor outside the minutes that the field counts.
abbrev pub IsEnd : Bool → ℤ → Type 0
IsEnd true t = Unit
IsEnd false (pos t) = (0 < t) × (t / 60 + stdc_min1900_diff < no_time)
IsEnd false (negsuc n) = (n + 1) / 60 ≤ stdc_min1900_diff

-- The numbers fit their bytes.
pub record IsRule (r : RecurBase) : Type 0 where
  pub recurs : r.recurring ≡ true
  pub some_interval : 0 < r.interval
  pub interval_fits : r.interval < 2 ^ 16
  pub day_of_week_fits : r.day_of_week < 256
  pub week_of_month_fits : r.week_of_month < 256
  pub day_of_month_fits : r.day_of_month < 256
  pub month_of_year_fits : r.month_of_year < 256
  pub ends : IsEnd r.perpetual r.recurring_end_time

-- The whole minute at a time or next to it, on the side of 1970.
abbrev pub whole_minute : ℤ → ℤ
whole_minute (pos t) = pos (t / 60 * 60)
whole_minute (negsuc n) = minus 0 ((n + 1) / 60 * 60)
