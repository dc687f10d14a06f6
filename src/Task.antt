-- ===== src/Task.antt =====
-- Task, src/r_task.h and src/r_task.cc: a record of the "Tasks" database.
pub mod Parts
pub mod Parsing
use barry.Data.{Data}
use barry.Fields.{
  CommonField, u8_field, u32_field, time_field, IConverter, text_field, parse_text, build_fields,
  Taken, took, threw, wrong_record_type, out_of_bounds, not_enough_data, Parsed,
  parse_common_fields,
}
use barry.Fields.Recurring.{is_valid, recurrence_field, take_time, taken_recurrence}
use barry.Fields.Text.{categories_field, take_categories}
use barry.Protocol.{get_u8, get_u16}
use barry.Recurrence
use barry.Recurrence.{RecurBase}
use barry.TimeZones.{get_static_time_zone_code}
use barry.Prelude.{
  ℕ, suc, Bool, true, false, Option, List, [], ◌∷◌, ◌++◌, ltb, ◌==◌, if◌then◌else◌, length, ℤ, pos,
}

-- The values of AlarmFlagType, PriorityFlagType and StatusFlagType are the numbers that the device
-- uses.
pub record Task : Type 0 where
  pub rec_type : ℕ
  pub record_id : ℕ
  pub recur : RecurBase
  pub summary : List ℕ
  pub notes : List ℕ
  pub categories : List (List ℕ)
  pub uid : List ℕ
  pub start_time : ℤ
  pub due_time : ℤ
  pub alarm_time : ℤ
  pub time_zone_code : ℕ
  pub time_zone_valid : Bool
  pub alarm_type : ℕ
  pub priority_flag : ℕ
  pub status_flag : ℕ
  pub unknowns : List CommonField

abbrev pub date : ℕ
date = 1

abbrev pub normal : ℕ
normal = 1

abbrev pub not_started : ℕ
not_started = 0

abbrev pub alarm_range_high : ℕ
alarm_range_high = 2

abbrev pub priority_range_high : ℕ
priority_range_high = 2

abbrev pub status_range_high : ℕ
status_range_high = 4

unfoldable pub cleared : Task
unfolding Recurrence.cleared get_static_time_zone_code
cleared = record {
  rec_type = 2;
  record_id = 0;
  recur = Recurrence.cleared;
  summary = [];
  notes = [];
  categories = [];
  uid = [];
  start_time = pos 0;
  due_time = pos 0;
  alarm_time = pos 0;
  time_zone_code = get_static_time_zone_code (pos 0) (pos 0);
  time_zone_valid = false;
  alarm_type = date;
  priority_flag = normal;
  status_flag = not_started;
  unknowns = [];
}

unfoldable pub set_ids : ℕ → ℕ → Task → Task
set_ids type id task = record task { rec_type = type; record_id = id }

-- What a type code stands for: the entries of the link table, and the cases of the switch.
pub data FieldCode : Type 0 where
  task_type title notes start_time due_time alarm_time priority status timezone_code : FieldCode
  due_flag alarm_flag alarm_type categories other : FieldCode

unfoldable pub code_of : ℕ → FieldCode
code_of type =
    if type == 0x01
    then task_type
    else if type == 0x02
    then title
    else if type == 0x03
    then notes
    else if type == 0x06
    then start_time
    else if type == 0x05
    then due_time
    else if type == 0x0f
    then alarm_time
    else if type == 0x0a
    then priority
    else if type == 0x09
    then status
    else if type == 0x10
    then timezone_code
    else if type == 0x08
    then due_flag
    else if type == 0x12
    then alarm_flag
    else if type == 0x0e
    then alarm_type
    else if type == 0x11
    then categories
    else other

module _ (ic : Option IConverter) (task : Task) (raw : List ℕ) where
  -- What is left when no table entry and no case took the field.
  unfoldable pub take_other : ℕ → Taken Task
  unfolding Recurrence.parse_field
  take_other type =
      taken_recurrence (Recurrence.parse_field task.recur type raw) (λ r. record task { recur = r })
        (record task { unknowns = task.unknowns ++ (record { type = type; raw = raw } ∷ []) })

  -- A byte that the record takes where it is in its range.
  abbrev pub take_flag : ℕ → (ℕ → Task) → Taken Task
  take_flag high set =
      if ltb high (get_u8 raw 0) then threw out_of_bounds else took (set (get_u8 raw 0))

  abbrev pub take_code : FieldCode → ℕ → Taken Task
  take_code task_type type = if get_u8 raw 0 == b't' then took task else threw wrong_record_type
  take_code title type = took (record task { summary = parse_text ic raw })
  take_code notes type = took (record task { notes = parse_text ic raw })
  take_code start_time type = take_time raw (λ t. record task { start_time = t }) (take_other type)
  take_code due_time type = take_time raw (λ t. record task { due_time = t }) (take_other type)
  take_code alarm_time type = take_time raw (λ t. record task { alarm_time = t }) (take_other type)
  take_code priority type = take_flag priority_range_high (λ n. record task { priority_flag = n })
  take_code status type = take_flag status_range_high (λ n. record task { status_flag = n })
  take_code timezone_code type =
      if length raw == 4
      then took (record task { time_zone_code = get_u16 raw 0; time_zone_valid = true })
      else threw not_enough_data
  take_code due_flag type = took task
  take_code alarm_flag type = took task
  take_code alarm_type type = take_flag alarm_range_high (λ n. record task { alarm_type = n })
  take_code categories type = take_categories ic raw (λ cs. record task { categories = cs })
  take_code other type = take_other type

-- `ParseField` of a field that lies before the end and has some bytes.
unfoldable pub take_field : Option IConverter → Task → ℕ → List ℕ → Taken Task
unfolding take_other code_of
take_field ic task type raw = take_code ic task raw (code_of type) type

unfoldable pub parse_fields : Option IConverter → Task → List ℕ → Parsed Task
parse_fields ic task bytes = parse_common_fields (take_field ic) (suc (length bytes)) task bytes

-- The start is written as the due time, too.
unfoldable pub due_fields : ℤ → List CommonField
due_fields due =
    if is_valid due
    then time_field 0x06 due ∷ (u32_field 0x08 1 ∷ (time_field 0x05 due ∷ []))
    else []

unfoldable pub alarm_fields : Task → List CommonField
alarm_fields task =
    if is_valid task.alarm_time
    then u32_field 0x12 1 ∷ (u8_field 0x0e task.alarm_type ∷ (time_field 0x0f task.alarm_time ∷ []))
    else []

unfoldable pub zone_fields : Task → List CommonField
zone_fields task = if task.time_zone_valid then u32_field 0x10 task.time_zone_code ∷ [] else []

-- The fields that `BuildFields` writes, in their order.
unfoldable pub fields : Option IConverter → Task → List CommonField
unfolding due_fields alarm_fields zone_fields
fields ic task =
    u8_field 0x01 b't'
    ∷ (text_field ic 0x02 task.summary
        ++ (u32_field 0x09 task.status_flag
            ∷ (u32_field 0x0a task.priority_flag
                ∷ (zone_fields task
                    ++ (due_fields task.due_time
                        ++ (alarm_fields task
                            ++ (categories_field ic 0x11 task.categories
                                ++ (text_field ic 0x03 task.notes
                                    ++ (recurrence_field task.start_time task.recur
                                        ++ task.unknowns)))))))))

unfoldable pub build : Option IConverter → Task → Data → ℕ → Option Data
unfolding fields
build ic task d offset = build_fields d offset (fields ic task)
