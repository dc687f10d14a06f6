-- ===== src/Examples/Entries.antt =====
-- Examples on the records of an address book, a calendar, tasks and memos.
use barry.Prelude.{
  ℕ, ◌+◌, ◌^◌, ◌<◌, ◌≡◌, ◌≢◌, refl, true, false, none, some, List, [], ◌∷◌, length, All, arith, pos,
  negsuc, drop, replicate, Bool, ◌==◌, if◌then◌else◌,
}
use barry.Calendar as Appointments
use barry.Calendar.{Calendar}
use barry.Calendar.Parsing.{parse_fields-build_calendar}
use barry.Calendar.Stages.{IsCalendar}
use barry.Contact
use barry.Contact.{Contact, Date, no_date, DateFormat, Link, links, converter}
use barry.Contact.Parsing.{parse_fields-build_contact}
use barry.Contact.Parts.{IsContact}
use barry.Contact.Table.{HasText}
use barry.Data.{Data, contents, prepend_size, get_buf_size}
use barry.Fields
use barry.Fields.Building.{HasRoom}
use barry.Fields.{CommonField, IConverter, parse_field_string}
use barry.Fields.Recurring.{recurrence_field}
use barry.Fields.Address.{address_field, EmailAddress}
use barry.Fields.AddressReading.{IsAddress}
use barry.Fields.Categories
use barry.Fields.Categories.Tokens.{IsCategory, category_str2list-category_list2str}
use barry.Fields.Reading.{IsField, parse_common_fields_total}
use barry.Fields.Sharing.{IsText}
use barry.Fields.TimeReading.{IsRead}
use barry.Memo
use barry.Memo.{Memo}
use barry.Memo.Parsing.{IsMemo, parse_fields-build-memo}
use barry.Recurrence
use barry.Recurrence.{RecurBase, week}
use barry.Recurrence.Rules.{IsRule}
use barry.Task as Todos
use barry.Task.{Task}
use barry.Task.Parsing.{IsTask, parse_fields-build-task}

text : (s : List ℕ) → parse_field_string s ≡ s → length s + 1 < 2 ^ 16 → IsText none s
text s e h = record { converts = refl; no_null_end = e; fits = h }

abbrev word : List ℕ
word = b'a' ∷ b'b' ∷ []

word-IsText : IsText none word
unfolding parse_field_string
word-IsText = text word refl (omega arith)

empty-IsText : IsText none []
unfolding parse_field_string
empty-IsText = text [] refl (omega arith)

abbrev names : List (List ℕ)
names = word ∷ (b'c' ∷ []) ∷ []

names-IsCategory : All IsCategory names
names-IsCategory = (
  record {
    not_empty = omega arith;
    starts = λ h. absurd (omega arith);
    ends = λ h. absurd (omega arith);
    no_comma = ((λ h. absurd (omega arith)), ((λ h. absurd (omega arith)), tt));
  },
  (
    record {
      not_empty = omega arith;
      starts = λ h. absurd (omega arith);
      ends = λ h. absurd (omega arith);
      no_comma = ((λ h. absurd (omega arith)), tt);
    },
    tt,
  ),
)

names-IsText : IsText none (Categories.category_list2str names)
unfolding parse_field_string Categories.category_list2str
names-IsText = text (Categories.category_list2str names) refl (omega arith)

category_str2list-category_list2str_example :
    Categories.category_str2list (Categories.category_list2str names) ≡ Categories.categories names
category_str2list-category_list2str_example =
    category_str2list-category_list2str names names-IsCategory

abbrev other_field : CommonField
other_field = record { type = 0x60; raw = 1 ∷ 2 ∷ [] }

other_field-IsField : IsField other_field
other_field-IsField = record {
  type_fits = omega arith;
  not_empty = omega arith;
  size_fits = omega arith;
}

abbrev memo : Memo
memo = record {
  rec_type = 0;
  record_id = 5;
  title = word;
  body = [];
  categories = names;
  unknowns = other_field ∷ [];
}

memo-IsMemo : IsMemo none memo
memo-IsMemo = record {
  title = word-IsText;
  body = empty-IsText;
  names = names-IsCategory;
  categories = names-IsText;
  unknowns = (record { field = other_field-IsField; unknown = omega arith }, tt);
}

-- A new buffer of 400 bytes with 5 bytes of prepend space, as the packet builders get it.
abbrev buffer : Data
buffer = record {
  mem_block = replicate 405 0;
  data_start = 5;
  data_size = 0;
  external_data = [];
  external = false;
  endpoint = negsuc 0;
}

memo_room : HasRoom buffer 7 (Fields.bytes_of (Memo.fields none memo))
unfolding Memo.fields Fields.encode Fields.u8_field Fields.string_field prepend_size get_buf_size
    Categories.category_list2str
memo_room = record { internal = refl; room = omega arith; small = omega arith }

parse_fields-build-memo_example :
    (d' : Data) × (Memo.build none memo buffer 7 ≡ some d')
    × (let bytes = drop 7 (contents d') in
        Memo.parse_fields none (Memo.Parsing.start none memo memo-IsMemo) bytes
        ≡ Fields.parsed memo (length bytes))
parse_fields-build-memo_example = parse_fields-build-memo none memo memo-IsMemo buffer 7 memo_room

parse_common_fields_total_example :
    Fields.parse_common_fields (Memo.take_field none) 8 Memo.cleared (9 ∷ 0 ∷ 1 ∷ 7 ∷ 7 ∷ [])
    ≢ Fields.out_of_fuel
parse_common_fields_total_example =
    parse_common_fields_total (Memo.take_field none) 8 Memo.cleared (9 ∷ 0 ∷ 1 ∷ 7 ∷ 7 ∷ [])
      (omega arith)

-- Every other week until the year 2001.
abbrev weekly : RecurBase
weekly = record {
  recurring = true;
  recurring_type = week;
  interval = 2;
  recurring_end_time = pos 1000000000;
  perpetual = false;
  day_of_week = 0;
  week_of_month = 0;
  day_of_month = 0;
  month_of_year = 0;
  week_days = 5;
}

weekly-IsRule : IsRule weekly
weekly-IsRule = record {
  recurs = refl;
  some_interval = omega arith;
  interval_fits = omega arith;
  day_of_week_fits = omega arith;
  week_of_month_fits = omega arith;
  day_of_month_fits = omega arith;
  month_of_year_fits = omega arith;
  ends = (omega arith, omega arith);
}

abbrev task : Task
task = record {
  rec_type = 2;
  record_id = 6;
  recur = weekly;
  summary = word;
  notes = [];
  categories = names;
  uid = word;
  start_time = pos 0;
  due_time = pos 900000090;
  alarm_time = pos 900000000;
  time_zone_code = 90;
  time_zone_valid = true;
  alarm_type = 2;
  priority_flag = 0;
  status_flag = 4;
  unknowns = other_field ∷ [];
}

task-IsTask : IsTask none task
unfolding Todos.code_of
task-IsTask = record {
  summary = word-IsText;
  notes = empty-IsText;
  names = names-IsCategory;
  categories = names-IsText;
  due_time = omega arith;
  alarm_time = omega arith;
  alarm_type = omega arith;
  time_zone = omega arith;
  priority_flag = omega arith;
  status_flag = omega arith;
  recur = weekly-IsRule;
  unknowns = (record { field = other_field-IsField; no_code = refl; no_recurrence = refl }, tt);
}

task_room : HasRoom buffer 7 (Fields.bytes_of (Todos.fields none task))
unfolding Todos.fields Todos.due_fields Todos.alarm_fields Todos.zone_fields Todos.code_of
    recurrence_field Recurrence.build_recurrence_data Recurrence.end_minutes Recurrence.time2min
    Fields.encode Fields.u8_field Fields.u16_field Fields.u32_field Fields.u64_field
    Fields.string_field Fields.time_field Categories.category_list2str prepend_size get_buf_size
task_room = record { internal = refl; room = omega arith; small = omega arith }

parse_fields-build-task_example :
    (d' : Data) × (Todos.build none task buffer 7 ≡ some d')
    × (r : RecurBase) × (let bytes = drop 7 (contents d') in
        Todos.parse_fields none (Todos.Parsing.start none task task-IsTask) bytes
        ≡ Fields.parsed (Todos.Parsing.as_read none task task-IsTask r) (length bytes))
    × IsRead weekly Recurrence.cleared true r
parse_fields-build-task_example = parse_fields-build-task none task task-IsTask buffer 7 task_room

abbrev address : EmailAddress
address = record { name = word; email = b'c' ∷ [] }

address-IsAddress : IsAddress none address
address-IsAddress = record {
  not_empty = omega arith;
  email_text = ((λ h. absurd (omega arith)), tt);
  name_text = ((λ h. absurd (omega arith)), ((λ h. absurd (omega arith)), tt));
  unchanged = refl;
  fits = omega arith;
}

abbrev appointment : Calendar
appointment = record {
  rec_type = 5;
  record_id = 8;
  recur = weekly;
  all_day_event = true;
  subject = word;
  notes = [];
  location = word;
  notification_time = pos 0;
  start_time = pos 900000090;
  end_time = pos 900003600;
  organizer = address ∷ [];
  accepted_by = [];
  invited = address ∷ address ∷ [];
  free_busy_flag = 3;
  class_flag = 1;
  calendar_id = 2 ^ 40;
  time_zone_code = 90;
  time_zone_valid = true;
  unknowns = other_field ∷ [];
}

appointment-IsCalendar : IsCalendar none appointment
unfolding Appointments.code_of
appointment-IsCalendar = record {
  subject = word-IsText;
  notes = empty-IsText;
  location = word-IsText;
  notification_time = omega arith;
  start_time = omega arith;
  end_time = omega arith;
  organizer = (address-IsAddress, tt);
  accepted_by = tt;
  invited = (address-IsAddress, (address-IsAddress, tt));
  recur = weekly-IsRule;
  free_busy_flag = omega arith;
  class_flag = omega arith;
  calendar_id = omega arith;
  time_zone = omega arith;
  unknowns = (record { field = other_field-IsField; no_code = refl; no_recurrence = refl }, tt);
}

appointment_room : HasRoom buffer 7 (Fields.bytes_of (Appointments.fields none appointment))
unfolding Appointments.fields Appointments.table_fields Appointments.special_fields
    Appointments.code_of address_field recurrence_field Recurrence.build_recurrence_data
    Recurrence.end_minutes Recurrence.time2min Fields.encode Fields.u8_field Fields.u16_field
    Fields.u32_field Fields.u64_field Fields.string_field Fields.time_field
    Categories.category_list2str prepend_size get_buf_size
appointment_room = record { internal = refl; room = omega arith; small = omega arith }

parse_fields-build_calendar_example :
    (d' : Data) × (Appointments.build none appointment buffer 7 ≡ some d')
    × (r : RecurBase) × (let bytes = drop 7 (contents d') in
        Appointments.parse_fields none
          (Appointments.Stages.start none appointment appointment-IsCalendar)
          bytes
        ≡ Fields.parsed
            (Appointments.Parsing.as_read none appointment appointment-IsCalendar r)
            (length bytes))
    × IsRead weekly (Appointments.Parsing.base none appointment appointment-IsCalendar) true r
parse_fields-build_calendar_example =
    parse_fields-build_calendar none appointment appointment-IsCalendar buffer 7 appointment_room

abbrev birthday : Date
birthday = record { month = pos 1; day = pos 2; year = pos 1990 }

-- A format that knows two dates.
abbrev two_dates : DateFormat
two_dates = record {
  to_bb_string =
      λ d. elim d.month [ pos n ↦ (if n == 0 then word else b'd' ∷ []) | negsuc n ↦ word ];
  from_bb_string = λ s. if length s == 1 then some birthday else some no_date;
}

abbrev contact : Contact
contact = record {
  rec_type = 0;
  record_id = 9;
  email_addresses = word ∷ [];
  text = λ code. word;
  first_name = [];
  last_name = word;
  birthday = birthday;
  anniversary = no_date;
  categories = names;
  group_links = record { link = 77; unknown = 3 } ∷ [];
  unknowns = other_field ∷ [];
  first_name_seen = false;
}

converted : (b : Bool) → IsText (converter b none) word
converted true = word-IsText
converted false = word-IsText

every_text : (ls : List Link) → All (HasText none two_dates contact) ls
every_text [] = tt
every_text (l ∷ ls) = (converted l.iconv_needed, every_text ls)

contact-IsContact : IsContact none two_dates contact
unfolding parse_field_string
contact-IsContact = record {
  blank = refl;
  names = (empty-IsText, word-IsText);
  email_addresses = ((omega arith, word-IsText), tt);
  text = every_text links;
  birthday = record { text = text (b'd' ∷ []) refl (omega arith); read = refl };
  anniversary = record { text = word-IsText; read = refl };
  category_names = names-IsCategory;
  categories = names-IsText;
  group_links = (record { link_fits = omega arith; unknown_fits = omega arith }, tt);
  unknowns = (
    record {
      field = other_field-IsField;
      no_link = refl;
      no_case = (refl, (refl, (refl, (refl, (refl, (refl, (refl, (refl, tt))))))));
    },
    tt,
  );
}

contact_room : HasRoom buffer 7 (Fields.bytes_of (Contact.fields none two_dates contact))
unfolding Contact.fields Fields.encode Fields.u8_field Fields.u16_field Fields.u32_field
    Fields.u64_field Fields.string_field Fields.time_field Categories.category_list2str prepend_size
    get_buf_size
contact_room = record { internal = refl; room = omega arith; small = omega arith }

parse_fields-build_contact_example :
    (d' : Data) × (Contact.build none two_dates contact buffer 7 ≡ some d')
    × (read : ℕ → List ℕ) × (let bytes = drop 7 (contents d') in
        Contact.parse_fields none two_dates
          (Contact.Parsing.start none two_dates contact contact-IsContact)
          bytes
        ≡ Fields.parsed
            (Contact.Parsing.as_read none two_dates contact contact-IsContact read)
            (length bytes))
    × All (λ l. read l.code ≡ contact.text l.code) links
parse_fields-build_contact_example =
    parse_fields-build_contact none two_dates contact contact-IsContact refl buffer 7 contact_room
