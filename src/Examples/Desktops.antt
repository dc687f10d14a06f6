-- ===== src/Examples/Desktops.antt =====
-- Examples on the desktop mode.
use barry.Prelude.{false, arith, ℕ, ◌≡◌, ◌≢◌, refl, true, some, Option, List, [], ◌∷◌, All}
use barry.Protocol.{check_size, size_field, command_field}
use barry.CommandTable
use barry.CommandTable.{same_name}
use barry.DbPacket
use barry.DbPacket.{DbPacket, DbData, rec_version_1}
use barry.Desktop.{World, ok, Built, database_access}
use barry.Desktop.Exchange.{IsDone, command_code, exchanged}
use barry.Desktop.Saving.{save_database}
use barry.Desktop.Saving.Packets.{built_all, saved, clear_packet, add_packets, last_of}
use barry.Desktop.Saving.Saved.{Saves, save_database-saved, save_database-returned}
use barry.Desktop.Loading.{load_database, name_or}
use barry.Desktop.Loading.Rounds.{IsReply, IsLast}
use barry.Desktop.Loading.Collect.{collected, load_database-collected}
use barry.DatabaseDatabase.{get_db_name}
use barry.DeviceParser.{DeviceParser, WriteMode, decide_by_callback, add_but_no_overwrite}
use barry.DeviceParser.Calls.{Keeps}
use barry.DeviceParser.Keeps.{new_ones, parse_all, parse_all-new_ones}
use barry.RecordState.{new_table}

-- DB_DONE with the code 0, and a record with the id 0x07 and two bytes.
abbrev done_packet : List ℕ
done_packet = 9 ∷ 0 ∷ 7 ∷ 0 ∷ 0x41 ∷ 1 ∷ 0 ∷ []

abbrev record_packet : List ℕ
record_packet = 9 ∷ 0 ∷ 17 ∷ 0 ∷ 0x40 ∷ 1 ∷ 0x4f ∷ 0 ∷ 0 ∷ 0 ∷ 2 ∷ 7 ∷ 0 ∷ 0 ∷ 0 ∷ 0xaa ∷ 0xbb ∷ []

abbrev world : List (Option (List ℕ)) → World
world answers = record {
  socket = 9;
  command_table = record { code = 5; name = database_access } ∷ [];
  dbdb = record { number = 1; record_count = 1; name = 66 ∷ [] } ∷ [];
  response = [];
  answers = answers;
  sent = [];
  parsed = [];
}

world_known : (answers : List (Option (List ℕ))) → command_code (world answers) ≢ 0
unfolding CommandTable.get_command same_name
world_known answers = λ e. absurd (omega arith)

done_packet-IsDone : IsDone done_packet
unfolding check_size size_field command_field
done_packet-IsDone = record { whole = refl; done = refl; zero_code = refl }

abbrev one_record : Built
one_record = record { rec_type = 0; unique_id = 7; bytes = 0xaa ∷ 0xbb ∷ [] }

abbrev saving : World
saving = world (some done_packet ∷ some done_packet ∷ [])

save_database-saved_example :
    save_database 1 (built_all (one_record ∷ [])) saving
    ≡ ok true (
        saved saving
          (clear_packet saving 1 ∷ add_packets 9 (command_code saving) 1 (one_record ∷ []))
          (last_of done_packet (done_packet ∷ []))
          [])
save_database-saved_example =
    save_database-saved 1 (one_record ∷ []) saving done_packet (done_packet ∷ []) []
      (world_known saving.answers) refl done_packet-IsDone (done_packet-IsDone, tt) refl

abbrev after_saving : World
after_saving =
    saved saving (clear_packet saving 1 ∷ add_packets 9 (command_code saving) 1 (one_record ∷ []))
      (last_of done_packet (done_packet ∷ [])) []

save_database_run : save_database 1 (built_all (one_record ∷ [])) saving ≡ ok true after_saving
save_database_run =
    save_database-saved 1 (one_record ∷ []) saving done_packet (done_packet ∷ []) []
      (world_known saving.answers) refl done_packet-IsDone (done_packet-IsDone, tt) refl

save_database-returned_example :
    (a : List ℕ) × (answers : List (Option (List ℕ))) × (command_code saving ≢ 0)
    × (saving.answers ≡ some a ∷ answers)
    × IsDone a
    × Saves 1
        (built_all (one_record ∷ []))
        (exchanged saving (clear_packet saving 1) a answers)
        after_saving
save_database-returned_example =
    save_database-returned 1 (built_all (one_record ∷ [])) saving true after_saving
      save_database_run

record_packet-IsReply : IsReply record_packet
unfolding check_size size_field command_field
record_packet-IsReply = record { whole = refl; not_done = refl; tagged = λ e. refl }

done_packet-IsLast : IsLast done_packet
unfolding check_size size_field command_field
done_packet-IsLast = record { whole = refl; done = refl }

abbrev loading : World
loading = world (some record_packet ∷ some done_packet ∷ [])

load_database-collected_example :
    load_database 1 loading
    ≡ some (
        ok true (
          collected
            (exchanged loading
              (DbPacket.get_records 9 (command_code loading) 1).send
              record_packet
              (some done_packet ∷ []))
            (name_or [] (get_db_name 1 loading.dbdb))
            (record_packet ∷ [])
            done_packet
            []))
load_database-collected_example =
    load_database-collected 1 loading (record_packet ∷ []) done_packet []
      (world_known loading.answers) (record_packet-IsReply, tt) done_packet-IsLast refl

abbrev one_data : DbData
one_data = record {
  version = rec_version_1;
  db_name = 66 ∷ [];
  rec_type = 0;
  unique_id = 7;
  offset = 0;
  block = 0xaa ∷ 0xbb ∷ [];
}

abbrev adding : DeviceParser
adding = record {
  mode = decide_by_callback;
  current_db = 66 ∷ [];
  current_dbid = 1;
  rstate = record new_table {
    state_map =
        (0, record { index = 3; record_id = 7; dirty = false; rec_type = 0; unknown2 = [] }) ∷ [];
  };
}

abbrev only_new : DbData → WriteMode
only_new d = add_but_no_overwrite

-- A record that the device has, and one that it does not.
abbrev two_data : List DbData
two_data = one_data ∷ record one_data { unique_id = 8 } ∷ []

two_data-same : All (λ (d : DbData). same_name d.db_name adding.current_db ≡ true) two_data
unfolding same_name
two_data-same = (refl, (refl, tt))

parse_all-new_ones_example :
    All Keeps (parse_all only_new adding two_data saving).1.sent
    × (parse_all only_new adding two_data saving
        ≡ parse_all only_new adding (new_ones adding.rstate two_data) saving)
parse_all-new_ones_example =
    parse_all-new_ones only_new adding two_data saving two_data-same (λ d. refl) tt
