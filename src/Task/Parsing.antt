-- ===== src/Task/Parsing.antt =====
-- ParseFields of what BuildFields writes, both of src/r_task.cc.
use barry.Data.{Data, contents}
use barry.Fields.Building.{HasRoom, build_fields-reads}
use barry.Fields.Categories.{category_list2str}
use barry.Fields.Categories.Tokens.{IsCategory}
use barry.Fields.Reading.{IsField, take_all_fields, took-append, parse_common_fields-bytes_of}
use barry.Fields.Recurring.{is_valid, recurrence_field}
use barry.Fields.Sharing.{
  IsText, take-text_field, take-categories_field, take-unknowns, text_field-IsField,
  categories_field-IsField, u8_field-IsField, u32_field-IsField,
}
use barry.Fields.Text.{categories_field}
use barry.Fields.TimeReading.{
  IsZone, IsTime, Repeats, IsRead, take-recurrence_field, recurrence_field-IsField,
}
use barry.Fields.{bytes_of, CommonField, IConverter, u8_field, u32_field, text_field, took, parsed}
use barry.Recurrence
use barry.Recurrence.{RecurBase}
use barry.Recurrence.Rules.{whole_minute}
use barry.Task.Parts.{
  IsUnknown, IsAlarm, unknowns-IsField, unknown_kept, take-flags, take-zone, take-due_fields,
  take-alarm_fields, zone_fields-IsField, due_fields-IsField, alarm_fields-IsField,
}
use barry.Task.{
  Task, cleared, set_ids, code_of, take_other, take_field, parse_fields, due_fields, alarm_fields,
  zone_fields, fields, build, priority_range_high, status_range_high,
}
use barry.Prelude.{
  drop, some, ℕ, ◌≤◌, ◌≡◌, refl, Option, List, [], ◌∷◌, ◌++◌, length, All, All-append, arith,
}

-- A task that the fields can hold.
pub record IsTask (ic : Option IConverter) (task : Task) : Type 0 where
  pub summary : IsText ic task.summary
  pub notes : IsText ic task.notes
  pub names : All IsCategory task.categories
  pub categories : IsText ic (category_list2str task.categories)
  pub due_time : IsTime task.due_time
  pub alarm_time : IsTime task.alarm_time
  pub alarm_type : IsAlarm (is_valid task.alarm_time) task.alarm_type
  pub time_zone : IsZone task.time_zone_valid task.time_zone_code
  pub priority_flag : task.priority_flag ≤ priority_range_high
  pub status_flag : task.status_flag ≤ status_range_high
  pub recur : Repeats task.recur task.recur.recurring
  pub unknowns : All IsUnknown task.unknowns

module _ (ic : Option IConverter) (task : Task) (v : IsTask ic task) where
  abbrev pub start : Task
  start = set_ids task.rec_type task.record_id cleared

  -- The task with its times at whole minutes, the due time as its start, without its UID and with
  -- a recurrence.
  abbrev pub as_read : RecurBase → Task
  as_read r = record task {
    recur = r;
    uid = [];
    start_time = whole_minute task.due_time;
    due_time = whole_minute task.due_time;
    alarm_time = whole_minute task.alarm_time;
  }

  -- The task without what the last fields add.
  abbrev timed : Task
  timed = record (as_read Recurrence.cleared) { categories = []; notes = []; unknowns = [] }

  abbrev tail_fields : List CommonField
  tail_fields =
      categories_field ic 0x11 task.categories
      ++ (text_field ic 0x03 task.notes
          ++ (recurrence_field task.start_time task.recur ++ task.unknowns))

  -- The condition of `Recurring` in the record that is read: it was cleared.
  take-tail_fields :
      (r : RecurBase) × (take_all_fields (take_field ic) timed tail_fields ≡ took (as_read r))
      × IsRead task.recur Recurrence.cleared task.recur.recurring r
  unfolding take_field take_other code_of
  take-tail_fields =
      let t = take_field ic in
      let named : Task = record timed { categories = task.categories } in
      let noted : Task = record named { notes = task.notes } in
      let set : RecurBase → Task = λ r. record noted { recur = r } in
      let unknown : List ℕ → Task =
        λ raw. record noted { unknowns = record { type = 0x0c; raw = raw } ∷ [] } in
      let last = recurrence_field task.start_time task.recur ++ task.unknowns in
      let (r, taken, same) =
        take-recurrence_field t noted Recurrence.cleared set unknown task.start_time task.recur
          (λ raw. refl) refl task.recur.recurring refl v.recur in
      (
        r,
        took-append t timed named (as_read r) (categories_field ic 0x11 task.categories)
            (text_field ic 0x03 task.notes ++ last)
            (take-categories_field t ic 0x11 timed (λ cs. record timed { categories = cs })
              task.categories (λ raw. refl) refl v.names v.categories)
            (took-append t named noted (as_read r) (text_field ic 0x03 task.notes) last
              (take-text_field t ic 0x03 named (λ str. record named { notes = str }) task.notes
                (λ raw. refl) refl v.notes)
              (took-append t noted (set r) (as_read r) (recurrence_field task.start_time task.recur)
                task.unknowns taken
                (take-unknowns t (λ us. record (as_read r) { unknowns = us }) IsUnknown
                  (unknown_kept ic (as_read r)) [] task.unknowns v.unknowns))),
        same,
      )

  take-fields :
      (u : Task)
      → take_all_fields (take_field ic) timed tail_fields ≡ took u
      → take_all_fields (take_field ic) start (fields ic task) ≡ took u
  unfolding fields take_field code_of u8_field set_ids cleared
  take-fields u h =
      let t = take_field ic in
      let titled : Task = record start { summary = task.summary } in
      let flagged : Task = record titled {
        status_flag = task.status_flag;
        priority_flag = task.priority_flag;
      } in
      let zoned : Task = record flagged {
        time_zone_code = task.time_zone_code;
        time_zone_valid = task.time_zone_valid;
      } in
      let due : Task = record zoned {
        start_time = whole_minute task.due_time;
        due_time = whole_minute task.due_time;
      } in
      let after_due = alarm_fields task ++ tail_fields in
      let after_zone = due_fields task.due_time ++ after_due in
      let after_flags = zone_fields task ++ after_zone in
      took-append t start titled u (text_field ic 0x02 task.summary)
        (u32_field 0x09 task.status_flag ∷ (u32_field 0x0a task.priority_flag ∷ after_flags))
        (take-text_field t ic 0x02 start (λ str. record start { summary = str }) task.summary
          (λ raw. refl) refl v.summary)
        (take-flags ic titled u task.status_flag task.priority_flag after_flags v.status_flag
          v.priority_flag
          (took-append t flagged zoned u (zone_fields task) after_zone
            (take-zone ic flagged task refl refl v.time_zone)
            (took-append t zoned due u (due_fields task.due_time) after_due
              (take-due_fields ic zoned task.due_time refl refl v.due_time)
              (took-append t due timed u (alarm_fields task) tail_fields
                (take-alarm_fields ic due task refl refl v.alarm_time v.alarm_type) h))))

  fields-IsField : All IsField (fields ic task)
  unfolding fields
  fields-IsField =
      let recur = recurrence_field task.start_time task.recur in
      let s1 = recur ++ task.unknowns in
      let s2 = text_field ic 0x03 task.notes ++ s1 in
      let s3 = alarm_fields task ++ tail_fields in
      let s4 = due_fields task.due_time ++ s3 in
      let tail : All IsField tail_fields =
        All-append IsField (categories_field ic 0x11 task.categories) s2
          (categories_field-IsField ic 0x11 task.categories (omega arith) v.categories)
          (All-append IsField (text_field ic 0x03 task.notes) s1
            (text_field-IsField ic 0x03 task.notes (omega arith) v.notes)
            (All-append IsField recur task.unknowns
              (recurrence_field-IsField task.start_time task.recur)
              (unknowns-IsField task.unknowns v.unknowns))) in
      let times : All IsField s4 =
        All-append IsField (due_fields task.due_time) s3 (due_fields-IsField task.due_time)
          (All-append IsField (alarm_fields task) tail_fields (alarm_fields-IsField task) tail) in
      (
        u8_field-IsField 0x01 b't' (omega arith),
        All-append IsField (text_field ic 0x02 task.summary)
            (u32_field 0x09 task.status_flag
              ∷ (u32_field 0x0a task.priority_flag ∷ (zone_fields task ++ s4)))
            (text_field-IsField ic 0x02 task.summary (omega arith) v.summary)
            (
              u32_field-IsField 0x09 task.status_flag (omega arith),
              (
                u32_field-IsField 0x0a task.priority_flag (omega arith),
                All-append IsField (zone_fields task) s4 (zone_fields-IsField task) times,
              ),
            ),
      )

  -- Where the buffer has the room for its fields without a move, BuildFields of a task that the
  -- fields can hold returns, and the task is read back from the bytes behind the offset, to the
  -- last byte, with its times at whole minutes, with the due time as its start, without its
  -- UID, and with the rule of its recurrence, where it recurs. Its texts are such that the
  -- converter gives them back.
  pub parse_fields-build-task :
      (d : Data) (offset : ℕ)
      → HasRoom d offset (bytes_of (fields ic task))
      → (d' : Data) × (build ic task d offset ≡ some d')
        × (r : RecurBase) × (let bytes = drop offset (contents d') in
            parse_fields ic start bytes ≡ parsed (as_read r) (length bytes))
        × IsRead task.recur Recurrence.cleared task.recur.recurring r
  unfolding parse_fields build
  parse_fields-build-task d offset room =
      let (r, taken, same) = take-tail_fields in
      let (d', built, read) =
        build_fields-reads
          (λ bytes. parse_fields ic start bytes ≡ parsed (as_read r) (length bytes)) d offset
          (fields ic task) room
          (parse_common_fields-bytes_of (take_field ic) start (as_read r) (fields ic task)
            fields-IsField (take-fields (as_read r) taken)) in
      (d', built, r, read, same)
