-- ===== src/Calendar.antt =====
-- Calendar, src/r_calendar.h and src/r_calendar.cc: a record of the "Calendar" database.
pub mod Stages
pub mod Specials
pub mod Parsing
use barry.Data.{Data}
use barry.Fields.{
  CommonField, u8_field, u16_field, u64_field, IConverter, text_field, parse_text, build_fields,
  Taken, took, threw, wrong_record_type, out_of_bounds, not_enough_data, Parsed,
  parse_common_fields,
}
use barry.Fields.Address.{EmailAddress, address_fields, take_address}
use barry.Fields.Recurring.{optional_time_field, recurrence_field, take_time, taken_recurrence}
use barry.Protocol.{get_u8, get_u16, get_u32}
use barry.Recurrence
use barry.Recurrence.{RecurBase}
use barry.TimeZones.{get_static_time_zone_code}
use barry.Prelude.{
  ℕ, suc, ◌+◌, ◌*◌, ◌^◌, ◌-◌, Bool, true, false, Option, List, [], ◌∷◌, ◌++◌, ltb, ◌==◌,
  if◌then◌else◌, length, ℤ, pos,
}

-- The values of FreeBusyFlagType and ClassFlagType are the numbers that the device uses.
pub record Calendar : Type 0 where
  pub rec_type : ℕ
  pub record_id : ℕ
  pub recur : RecurBase
  pub all_day_event : Bool
  pub subject : List ℕ
  pub notes : List ℕ
  pub location : List ℕ
  pub notification_time : ℤ
  pub start_time : ℤ
  pub end_time : ℤ
  pub organizer : List EmailAddress
  pub accepted_by : List EmailAddress
  pub invited : List EmailAddress
  pub free_busy_flag : ℕ
  pub class_flag : ℕ
  pub calendar_id : ℕ
  pub time_zone_code : ℕ
  pub time_zone_valid : Bool
  pub unknowns : List CommonField

abbrev pub free : ℕ
free = 0

abbrev pub public : ℕ
public = 0

abbrev pub free_busy_range_high : ℕ
free_busy_range_high = 3

abbrev pub class_range_high : ℕ
class_range_high = 2

-- `(uint64_t) -1`.
abbrev pub no_calendar_id : ℕ
no_calendar_id = 2 ^ 64 - 1

unfoldable pub cleared : Calendar
unfolding Recurrence.cleared get_static_time_zone_code
cleared = record {
  rec_type = 5;
  record_id = 0;
  recur = Recurrence.cleared;
  all_day_event = false;
  subject = [];
  notes = [];
  location = [];
  notification_time = pos 0;
  start_time = pos 0;
  end_time = pos 0;
  organizer = [];
  accepted_by = [];
  invited = [];
  free_busy_flag = free;
  class_flag = public;
  calendar_id = no_calendar_id;
  time_zone_code = get_static_time_zone_code (pos 0) (pos 0);
  time_zone_valid = false;
  unknowns = [];
}

unfoldable pub set_ids : ℕ → ℕ → Calendar → Calendar
set_ids type id cal = record cal { rec_type = type; record_id = id }

-- What a type code stands for: the entries of the link table, and the cases of the switch.
pub data FieldCode : Type 0 where
  appt_type_flag subject notes location notification_time start_time end_time : FieldCode
  organizer accepted_by invited all_day_event timezone_code free_busy calendar_id : FieldCode
  class other : FieldCode

unfoldable pub code_of : ℕ → FieldCode
code_of type =
    if type == 0x02
    then subject
    else if type == 0x03
    then notes
    else if type == 0x04
    then location
    else if type == 0x05
    then notification_time
    else if type == 0x06
    then start_time
    else if type == 0x07
    then end_time
    else if type == 0x16
    then organizer
    else if type == 0x0b
    then accepted_by
    else if type == 0x15
    then invited
    else if type == 0x01
    then appt_type_flag
    else if type == 0xff
    then all_day_event
    else if type == 0x1e
    then timezone_code
    else if type == 0x1c
    then free_busy
    else if type == 0x2b
    then calendar_id
    else if type == 0x28
    then class
    else other

-- `Recurring` of the base class.
abbrev pub set_recurring : Calendar → Bool → Calendar
set_recurring cal b = record cal { recur = record cal.recur { recurring = b } }

module _ (ic : Option IConverter) (cal : Calendar) (raw : List ℕ) where
  -- What is left when no table entry and no case took the field.
  unfoldable pub take_other : ℕ → Taken Calendar
  unfolding Recurrence.parse_field
  take_other type =
      taken_recurrence (Recurrence.parse_field cal.recur type raw) (λ r. record cal { recur = r })
        (record cal { unknowns = cal.unknowns ++ (record { type = type; raw = raw } ∷ []) })

  abbrev pub take_code : FieldCode → ℕ → Taken Calendar
  take_code appt_type_flag type =
      if get_u8 raw 0 == b'a'
      then took (set_recurring cal false)
      else if get_u8 raw 0 == b'*'
      then took (set_recurring cal true)
      else threw wrong_record_type
  take_code subject type = took (record cal { subject = parse_text ic raw })
  take_code notes type = took (record cal { notes = parse_text ic raw })
  take_code location type = took (record cal { location = parse_text ic raw })
  take_code notification_time type =
      take_time raw (λ t. record cal { notification_time = t }) (take_other type)
  take_code start_time type = take_time raw (λ t. record cal { start_time = t }) (take_other type)
  take_code end_time type = take_time raw (λ t. record cal { end_time = t }) (take_other type)
  take_code organizer type =
      take_address ic raw cal.organizer (λ list. record cal { organizer = list })
  take_code accepted_by type =
      take_address ic raw cal.accepted_by (λ list. record cal { accepted_by = list })
  take_code invited type = take_address ic raw cal.invited (λ list. record cal { invited = list })
  take_code all_day_event type = took (record cal { all_day_event = get_u8 raw 0 == 1 })
  take_code timezone_code type =
      if length raw == 2
      then took (record cal { time_zone_code = get_u16 raw 0; time_zone_valid = true })
      else threw not_enough_data
  take_code free_busy type =
      if ltb free_busy_range_high (get_u8 raw 0)
      then threw out_of_bounds
      else took (record cal { free_busy_flag = get_u8 raw 0 })
  take_code calendar_id type =
      if length raw == 8
      then took (record cal { calendar_id = get_u32 raw 0 + 2 ^ 32 * get_u32 raw 4 })
      else threw not_enough_data
  take_code class type =
      if ltb class_range_high (get_u8 raw 0)
      then threw out_of_bounds
      else took (record cal { class_flag = get_u8 raw 0 })
  take_code other type = take_other type

-- `ParseField` of a field that lies before the end and has some bytes.
unfoldable pub take_field : Option IConverter → Calendar → ℕ → List ℕ → Taken Calendar
unfolding take_other code_of
take_field ic cal type raw = take_code ic cal raw (code_of type) type

unfoldable pub parse_fields : Option IConverter → Calendar → List ℕ → Parsed Calendar
parse_fields ic cal bytes = parse_common_fields (take_field ic) (suc (length bytes)) cal bytes

-- The fields from the link table, in its order.
unfoldable pub table_fields : Option IConverter → Calendar → List CommonField
table_fields ic cal =
    text_field ic 0x02 cal.subject
    ++ (text_field ic 0x03 cal.notes
        ++ (text_field ic 0x04 cal.location
            ++ (optional_time_field 0x05 cal.notification_time
                ++ (optional_time_field 0x06 cal.start_time
                    ++ (optional_time_field 0x07 cal.end_time
                        ++ (address_fields 0x16 cal.organizer
                            ++ (address_fields 0x0b cal.accepted_by
                                ++ address_fields 0x15 cal.invited)))))))

-- The fields that follow them, up to the unknown ones.
unfoldable pub special_fields : Calendar → List CommonField
special_fields cal =
    recurrence_field cal.start_time cal.recur
    ++ ((if cal.time_zone_valid then u16_field 0x1e cal.time_zone_code ∷ [] else [])
        ++ (u8_field 0x1c cal.free_busy_flag
            ∷ (u8_field 0x28 cal.class_flag
                ∷ (if cal.calendar_id == no_calendar_id
                    then []
                    else u64_field 0x2b cal.calendar_id ∷ []))))

-- The fields that `BuildFields` writes, in their order.
unfoldable pub fields : Option IConverter → Calendar → List CommonField
unfolding table_fields special_fields
fields ic cal =
    u8_field 0x01 (if cal.recur.recurring then b'*' else b'a')
    ∷ ((if cal.all_day_event then u8_field 0xff 1 ∷ [] else [])
        ++ (table_fields ic cal ++ (special_fields cal ++ cal.unknowns)))

unfoldable pub build : Option IConverter → Calendar → Data → ℕ → Option Data
unfolding fields
build ic cal d offset = build_fields d offset (fields ic cal)
