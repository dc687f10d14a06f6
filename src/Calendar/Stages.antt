-- ===== src/Calendar/Stages.antt =====
-- The appointment as ParseFields of src/r_calendar.cc goes over the fields from the link table that
-- BuildFields wrote.
use barry.Fields.Reading.{IsField, take_all_fields, took-append}
use barry.Fields.Sharing.{IsText, take-text_field, text_field-IsField}
use barry.Fields.TimeReading.{
  IsZone, IsTime, take-optional_time_field, optional_time_field-IsField, Repeats,
}
use barry.Fields.AddressReading.{IsAddress, take-address_fields, address_fields-IsField}
use barry.Fields.Address.{EmailAddress, address_fields}
use barry.Fields.Recurring.{optional_time_field}
use barry.Fields.{CommonField, IConverter, text_field, took}
use barry.Recurrence
use barry.Recurrence.{RecurBase}
use barry.Recurrence.Rules.{whole_minute}
use barry.Calendar.{
  Calendar, cleared, set_ids, set_recurring, other, code_of, take_other, take_field, table_fields,
  free_busy_range_high, class_range_high,
}
use barry.Prelude.{
  ℕ, ◌^◌, ◌<◌, ◌≤◌, ◌≡◌, refl, false, Option, List, [], ◌∷◌, ◌++◌, ◌==◌, All, All-append, arith, ℤ,
}

-- A field that no member of an appointment is read from.
pub record IsUnknown (f : CommonField) : Type 0 where
  pub field : IsField f
  pub no_code : code_of f.type ≡ other
  pub no_recurrence : (f.type == Recurrence.fieldcode_recurrence_data) ≡ false

-- An appointment that the fields can hold.
pub record IsCalendar (ic : Option IConverter) (cal : Calendar) : Type 0 where
  pub subject : IsText ic cal.subject
  pub notes : IsText ic cal.notes
  pub location : IsText ic cal.location
  pub notification_time : IsTime cal.notification_time
  pub start_time : IsTime cal.start_time
  pub end_time : IsTime cal.end_time
  pub organizer : All (IsAddress ic) cal.organizer
  pub accepted_by : All (IsAddress ic) cal.accepted_by
  pub invited : All (IsAddress ic) cal.invited
  pub recur : Repeats cal.recur cal.recur.recurring
  pub free_busy_flag : cal.free_busy_flag ≤ free_busy_range_high
  pub class_flag : cal.class_flag ≤ class_range_high
  pub calendar_id : cal.calendar_id < 2 ^ 64
  pub time_zone : IsZone cal.time_zone_valid cal.time_zone_code
  pub unknowns : All IsUnknown cal.unknowns

pub unknowns-IsField : (us : List CommonField) → All IsUnknown us → All IsField us
unknowns-IsField [] v = tt
unknowns-IsField (f ∷ fs) (v, vs) = (v.field, unknowns-IsField fs vs)

module _ (ic : Option IConverter) (cal : Calendar) (v : IsCalendar ic cal) where
  abbrev pub start : Calendar
  start = set_ids cal.rec_type cal.record_id cleared

  -- The appointment once the type and the flag of the day are read.
  abbrev pub flagged : Calendar
  flagged = record (set_recurring start cal.recur.recurring) { all_day_event = cal.all_day_event }

  abbrev pub texts : Calendar
  texts = record flagged { subject = cal.subject; notes = cal.notes; location = cal.location }

  abbrev pub times : Calendar
  times = record texts {
    notification_time = whole_minute cal.notification_time;
    start_time = whole_minute cal.start_time;
    end_time = whole_minute cal.end_time;
  }

  abbrev pub people : Calendar
  people = record times {
    organizer = cal.organizer;
    accepted_by = cal.accepted_by;
    invited = cal.invited;
  }

  pub take-texts :
      (rest : List CommonField) (u : Calendar)
      → take_all_fields (take_field ic) texts rest ≡ took u
      → take_all_fields (take_field ic) flagged (
          text_field ic 0x02 cal.subject
          ++ (text_field ic 0x03 cal.notes ++ (text_field ic 0x04 cal.location ++ rest)))
        ≡ took u
  unfolding take_field cleared set_ids code_of
  take-texts rest u h =
      let t = take_field ic in
      let one : Calendar = record flagged { subject = cal.subject } in
      let two : Calendar = record one { notes = cal.notes } in
      took-append t flagged one u (text_field ic 0x02 cal.subject)
        (text_field ic 0x03 cal.notes ++ (text_field ic 0x04 cal.location ++ rest))
        (take-text_field t ic 0x02 flagged (λ str. record flagged { subject = str }) cal.subject
          (λ raw. refl) refl v.subject)
        (took-append t one two u (text_field ic 0x03 cal.notes)
          (text_field ic 0x04 cal.location ++ rest)
          (take-text_field t ic 0x03 one (λ str. record one { notes = str }) cal.notes (λ raw. refl)
            refl v.notes)
          (took-append t two texts u (text_field ic 0x04 cal.location) rest
            (take-text_field t ic 0x04 two (λ str. record two { location = str }) cal.location
              (λ raw. refl) refl v.location)
            h))

  pub take-times :
      (rest : List CommonField) (u : Calendar)
      → take_all_fields (take_field ic) times rest ≡ took u
      → take_all_fields (take_field ic) texts (
          optional_time_field 0x05 cal.notification_time
          ++ (optional_time_field 0x06 cal.start_time
              ++ (optional_time_field 0x07 cal.end_time ++ rest)))
        ≡ took u
  unfolding take_field cleared set_ids code_of
  take-times rest u h =
      let t = take_field ic in
      let set1 : ℤ → Calendar = λ k. record texts { notification_time = k } in
      let one = set1 (whole_minute cal.notification_time) in
      let set2 : ℤ → Calendar = λ k. record one { start_time = k } in
      let two = set2 (whole_minute cal.start_time) in
      took-append t texts one u (optional_time_field 0x05 cal.notification_time)
        (optional_time_field 0x06 cal.start_time ++ (optional_time_field 0x07 cal.end_time ++ rest))
        (take-optional_time_field t 0x05 texts set1 (λ raw. take_other ic texts raw 0x05)
          cal.notification_time (λ raw. refl) refl v.notification_time)
        (took-append t one two u (optional_time_field 0x06 cal.start_time)
          (optional_time_field 0x07 cal.end_time ++ rest)
          (take-optional_time_field t 0x06 one set2 (λ raw. take_other ic one raw 0x06)
            cal.start_time (λ raw. refl) refl v.start_time)
          (took-append t two times u (optional_time_field 0x07 cal.end_time) rest
            (take-optional_time_field t 0x07 two (λ k. record two { end_time = k })
              (λ raw. take_other ic two raw 0x07) cal.end_time (λ raw. refl) refl v.end_time)
            h))

  take-people :
      take_all_fields (take_field ic) times (
        address_fields 0x16 cal.organizer
        ++ (address_fields 0x0b cal.accepted_by ++ address_fields 0x15 cal.invited))
      ≡ took people
  unfolding take_field cleared set_ids code_of
  take-people =
      let t = take_field ic in
      let set1 : List EmailAddress → Calendar = λ k. record times { organizer = k } in
      let one = set1 cal.organizer in
      let set2 : List EmailAddress → Calendar = λ k. record one { accepted_by = k } in
      let two = set2 cal.accepted_by in
      let set3 : List EmailAddress → Calendar = λ k. record two { invited = k } in
      let last = address_fields 0x15 cal.invited in
      took-append t times one people (address_fields 0x16 cal.organizer)
        (address_fields 0x0b cal.accepted_by ++ last)
        (take-address_fields t ic 0x16 set1 (λ list raw. refl) [] cal.organizer v.organizer)
        (took-append t one two people (address_fields 0x0b cal.accepted_by) last
          (take-address_fields t ic 0x0b set2 (λ list raw. refl) [] cal.accepted_by v.accepted_by)
          (take-address_fields t ic 0x15 set3 (λ list raw. refl) [] cal.invited v.invited))

  pub take-table_fields :
      take_all_fields (take_field ic) flagged (table_fields ic cal) ≡ took people
  unfolding table_fields
  take-table_fields =
      let last =
        address_fields 0x16 cal.organizer
        ++ (address_fields 0x0b cal.accepted_by ++ address_fields 0x15 cal.invited) in
      take-texts
        (optional_time_field 0x05 cal.notification_time
          ++ (optional_time_field 0x06 cal.start_time
              ++ (optional_time_field 0x07 cal.end_time ++ last)))
        people (take-times last people take-people)

  pub table_fields-IsField : All IsField (table_fields ic cal)
  unfolding table_fields
  table_fields-IsField =
      let All-text : (type : ℕ) (str : List ℕ) (rest : List CommonField)
          → type < 256
          → IsText ic str
          → All IsField rest
          → All IsField (text_field ic type str ++ rest) =
        λ type str rest h w r.
          All-append IsField (text_field ic type str) rest (text_field-IsField ic type str h w) r in
      let All-time : (type : ℕ) (t : ℤ) (rest : List CommonField)
          → type < 256
          → All IsField rest
          → All IsField (optional_time_field type t ++ rest) =
        λ type t rest h r.
          All-append IsField (optional_time_field type t) rest
            (optional_time_field-IsField type t h) r in
      let invited = address_fields-IsField ic 0x15 cal.invited (omega arith) v.invited in
      let accepted =
        All-append IsField (address_fields 0x0b cal.accepted_by) (address_fields 0x15 cal.invited)
          (address_fields-IsField ic 0x0b cal.accepted_by (omega arith) v.accepted_by) invited in
      let last =
        address_fields 0x16 cal.organizer
        ++ (address_fields 0x0b cal.accepted_by ++ address_fields 0x15 cal.invited) in
      let addresses : All IsField last =
        All-append IsField (address_fields 0x16 cal.organizer)
          (address_fields 0x0b cal.accepted_by ++ address_fields 0x15 cal.invited)
          (address_fields-IsField ic 0x16 cal.organizer (omega arith) v.organizer) accepted in
      let t3 = optional_time_field 0x07 cal.end_time ++ last in
      let t2 = optional_time_field 0x06 cal.start_time ++ t3 in
      let t1 = optional_time_field 0x05 cal.notification_time ++ t2 in
      let s3 = text_field ic 0x04 cal.location ++ t1 in
      let s2 = text_field ic 0x03 cal.notes ++ s3 in
      All-text 0x02 cal.subject s2 (omega arith) v.subject (
        All-text 0x03 cal.notes s3 (omega arith) v.notes (
          All-text 0x04 cal.location t1 (omega arith) v.location (
            All-time 0x05 cal.notification_time t2 (omega arith) (
              All-time 0x06 cal.start_time t3 (omega arith)
                (All-time 0x07 cal.end_time last (omega arith) addresses)))))
