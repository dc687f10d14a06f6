-- ===== src/Calendar/Parsing.antt =====
-- ParseFields of what BuildFields writes, both of src/r_calendar.cc.
use barry.Data.{Data, contents}
use barry.Fields.Building.{HasRoom, build_fields-reads}
use barry.Fields.Reading.{IsField, take_all_fields, took-append, parse_common_fields-bytes_of}
use barry.Fields.Sharing.{take-unknowns, u8_field-IsField, u16_field-IsField, optional-IsField}
use barry.Calendar.Specials.{
  unknown_kept, zone_fields, take-zone, take-flags, id_fields, take-id, id_fields-IsField,
}
use barry.Fields.TimeReading.{IsRead, take-recurrence_field, recurrence_field-IsField}
use barry.Fields.Recurring.{recurrence_field}
use barry.Fields.{bytes_of, CommonField, IConverter, u8_field, u16_field, took, parsed}
use barry.Recurrence
use barry.Recurrence.{RecurBase, returned}
use barry.Recurrence.Rules.{whole_minute}
use barry.Calendar.Stages.{
  IsCalendar, IsUnknown, unknowns-IsField, start, flagged, people, take-table_fields,
  table_fields-IsField,
}
use barry.Calendar.{
  Calendar, cleared, set_ids, set_recurring, code_of, take_other, take_field, parse_fields,
  table_fields, special_fields, fields, build,
}
use barry.Prelude.{
  drop, some, ℕ, ◌≡◌, refl, ◌∙◌, Bool, true, false, Option, List, [], ◌∷◌, ◌++◌, if◌then◌else◌,
  length, All, All-append, arith,
}

module _ (ic : Option IConverter) (cal : Calendar) (v : IsCalendar ic cal) where
  -- The appointment with its times at whole minutes, and a recurrence.
  abbrev pub as_read : RecurBase → Calendar
  as_read r = record cal {
    recur = r;
    notification_time = whole_minute cal.notification_time;
    start_time = whole_minute cal.start_time;
    end_time = whole_minute cal.end_time;
  }

  -- The recurrence of a cleared record once the type of the appointment is read.
  abbrev pub base : RecurBase
  base = record Recurrence.cleared { recurring = cal.recur.recurring }

  take-special_fields :
      (r : RecurBase) × (take_all_fields
          (take_field ic)
          (people ic cal v)
          (special_fields cal ++ cal.unknowns)
        ≡ took (as_read r))
      × IsRead cal.recur base cal.recur.recurring r
  unfolding special_fields take_field take_other code_of cleared set_ids zone_fields id_fields
  take-special_fields =
      let t = take_field ic in
      let s = people ic cal v in
      let set : RecurBase → Calendar = λ r. record s { recur = r } in
      let unknown : List ℕ → Calendar =
        λ raw. record s { unknowns = record { type = 0x0c; raw = raw } ∷ [] } in
      let (r, taken, same) =
        take-recurrence_field t s base set unknown cal.start_time cal.recur (λ raw. refl) refl
          cal.recur.recurring refl v.recur in
      let read : Calendar = set r in
      let zoned : Calendar = record read {
        time_zone_code = cal.time_zone_code;
        time_zone_valid = cal.time_zone_valid;
      } in
      let told : Calendar = record zoned {
        free_busy_flag = cal.free_busy_flag;
        class_flag = cal.class_flag;
      } in
      let known : Calendar = record (as_read r) { unknowns = [] } in
      let zone = zone_fields ic cal.time_zone_valid cal.time_zone_code in
      let ids = id_fields ic cal.calendar_id in
      let flags = u8_field 0x1c cal.free_busy_flag ∷ (u8_field 0x28 cal.class_flag ∷ ids) in
      let special : take_all_fields t s (special_fields cal) ≡ took known =
        took-append t s read known (recurrence_field cal.start_time cal.recur) (zone ++ flags) taken
          (took-append t read zoned known zone flags
            (take-zone ic read cal.time_zone_valid cal.time_zone_code refl refl v.time_zone)
            (take-flags ic zoned known cal.free_busy_flag cal.class_flag ids v.free_busy_flag
              v.class_flag (take-id ic told cal.calendar_id refl v.calendar_id))) in
      (
        r,
        took-append t s known (as_read r) (special_fields cal) cal.unknowns special (
            take-unknowns t (λ us. record (as_read r) { unknowns = us }) IsUnknown
              (unknown_kept ic (as_read r)) [] cal.unknowns v.unknowns),
        same,
      )

  flag_fields : List CommonField
  flag_fields = if cal.all_day_event then u8_field 0xff 1 ∷ [] else []

  take-flag_fields :
      take_all_fields
        (take_field ic)
        (set_recurring (start ic cal v) cal.recur.recurring)
        flag_fields
      ≡ took (flagged ic cal v)
  unfolding flag_fields take_field code_of u8_field cleared set_ids
  take-flag_fields = by_flag cal.all_day_event
    where
      by_flag :
          (b : Bool)
          → take_all_fields
              (take_field ic)
              (set_recurring (start ic cal v) cal.recur.recurring)
              (if b then u8_field 0xff 1 ∷ [] else [])
            ≡ took (record (flagged ic cal v) { all_day_event = b })
      by_flag true = refl
      by_flag false = refl

  take-type :
      (rest : List CommonField)
      → take_all_fields
          (take_field ic)
          (start ic cal v)
          (u8_field 0x01 (if cal.recur.recurring then b'*' else b'a') ∷ rest)
        ≡ take_all_fields (take_field ic) (set_recurring (start ic cal v) cal.recur.recurring) rest
  unfolding take_field code_of u8_field
  take-type rest = by_flag cal.recur.recurring
    where
      by_flag :
          (b : Bool)
          → take_all_fields
              (take_field ic)
              (start ic cal v)
              (u8_field 0x01 (if b then b'*' else b'a') ∷ rest)
            ≡ take_all_fields (take_field ic) (set_recurring (start ic cal v) b) rest
      by_flag true = refl
      by_flag false = refl

  take-fields :
      (r : RecurBase) × (take_all_fields (take_field ic) (start ic cal v) (fields ic cal)
        ≡ took (as_read r))
      × IsRead cal.recur base cal.recur.recurring r
  unfolding fields flag_fields
  take-fields =
      let t = take_field ic in
      let (r, taken, same) = take-special_fields in
      let rest = special_fields cal ++ cal.unknowns in
      (
        r,
        take-type (flag_fields ++ (table_fields ic cal ++ rest))
            ∙ took-append t (set_recurring (start ic cal v) cal.recur.recurring) (flagged ic cal v)
                (as_read r) flag_fields (table_fields ic cal ++ rest) take-flag_fields
                (took-append t (flagged ic cal v) (people ic cal v) (as_read r)
                  (table_fields ic cal) rest (take-table_fields ic cal v) taken),
        same,
      )

  fields-IsField : All IsField (fields ic cal)
  unfolding fields flag_fields special_fields zone_fields id_fields
  fields-IsField =
      let zone = zone_fields ic cal.time_zone_valid cal.time_zone_code in
      let ids = id_fields ic cal.calendar_id in
      let flags = u8_field 0x1c cal.free_busy_flag ∷ (u8_field 0x28 cal.class_flag ∷ ids) in
      let numbers : All IsField flags = (
        u8_field-IsField 0x1c cal.free_busy_flag (omega arith),
        (u8_field-IsField 0x28 cal.class_flag (omega arith), id_fields-IsField ic cal.calendar_id),
      ) in
      let special : All IsField (special_fields cal) =
        All-append IsField (recurrence_field cal.start_time cal.recur) (zone ++ flags)
          (recurrence_field-IsField cal.start_time cal.recur)
          (All-append IsField zone flags
            (optional-IsField cal.time_zone_valid (u16_field 0x1e cal.time_zone_code)
              (u16_field-IsField 0x1e cal.time_zone_code (omega arith)))
            numbers) in
      let rest = special_fields cal ++ cal.unknowns in
      (
        u8_field-IsField 0x01 (if cal.recur.recurring then b'*' else b'a') (omega arith),
        All-append IsField flag_fields (table_fields ic cal ++ rest)
            (optional-IsField cal.all_day_event (u8_field 0xff 1)
              (u8_field-IsField 0xff 1 (omega arith)))
            (All-append IsField (table_fields ic cal) rest (table_fields-IsField ic cal v) (
              All-append IsField (special_fields cal) cal.unknowns special
                (unknowns-IsField cal.unknowns v.unknowns))),
      )

  -- Where the buffer has the room for its fields without a move, BuildFields of an appointment that
  -- the fields can hold returns, and the appointment is read back from the bytes behind the offset,
  -- to the last byte, with its times at whole minutes and with the rule of its recurrence,
  -- where it recurs. Its texts are such that the converter gives them back, and its addresses such
  -- that it leaves them alone.
  pub parse_fields-build_calendar :
      (d : Data) (offset : ℕ)
      → HasRoom d offset (bytes_of (fields ic cal))
      → (d' : Data) × (build ic cal d offset ≡ some d')
        × (r : RecurBase) × (let bytes = drop offset (contents d') in
            parse_fields ic (start ic cal v) bytes ≡ parsed (as_read r) (length bytes))
        × IsRead cal.recur base cal.recur.recurring r
  unfolding parse_fields build
  parse_fields-build_calendar d offset room =
      let (r, taken, same) = take-fields in
      let (d', built, read) =
        build_fields-reads
          (λ bytes. parse_fields ic (start ic cal v) bytes ≡ parsed (as_read r) (length bytes)) d
          offset (fields ic cal) room
          (parse_common_fields-bytes_of (take_field ic) (start ic cal v) (as_read r) (fields ic cal)
            fields-IsField taken) in
      (d', built, r, read, same)
