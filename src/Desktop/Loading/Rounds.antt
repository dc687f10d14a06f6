-- ===== src/Desktop/Loading/Rounds.antt =====
-- One round of `LoadDatabase` of src/m_desktop.cc: what the loader does with an answer.
use barry.Prelude.{
  ℕ, suc, ◌≡◌, ap, ◌∙◌, Bool, true, false, not, Option, none, some, List, [], ◌∷◌, ◌==◌,
  if◌then◌else◌,
}
use barry.Protocol.{check_size, command_field}
use barry.Protocol.Command
use barry.DbPacket
use barry.DbPacket.{DbPacket, DbData, tagged_record, tagged_offset}
use barry.Desktop.{World, Result, ok, threw, packet, next_record_packet}
use barry.Desktop.Exchange.{exchanged, packet-answered}
use barry.Desktop.Loading.{
  DbLoader, Loaded, take_record, scan, set_db_name, get_next_record, give, no_more, load_loop,
}

-- An answer before DB_DONE: it has a header, and that of a record where it is DB_DATA.
pub record IsReply (p : List ℕ) : Type 0 where
  pub whole : check_size p 5 ≡ true
  pub not_done : (command_field p == Command.db_done) ≡ false
  pub tagged : command_field p ≡ Command.db_data → check_size p tagged_offset ≡ true

pub record IsLast (p : List ℕ) : Type 0 where
  pub whole : check_size p 5 ≡ true
  pub done : command_field p ≡ Command.db_done

unfoldable pub finish : Option (List ℕ) → Result Loaded → Result Loaded
finish none r = r
finish (some name) r = set_db_name name r

-- The rest of the load from a command that is to be looked at on, in `StartDBLoad` with the name of
-- the database or in `GetNextRecord`.
unfoldable pub load_on : ℕ → Result Loaded → Option (Result Bool)
load_on fuel (threw e w) = some (threw e w)
load_on fuel (ok r w) = load_loop fuel r w

unfoldable pub load_from : Option (List ℕ) → ℕ → DbLoader → DbData → World → Option (Result Bool)
load_from post fuel l d w = load_on fuel (finish post (scan l d w.answers w))

unfoldable pub given_name : Option (List ℕ) → DbData → List ℕ
given_name none d = d.db_name
given_name (some name) d = name

scan-other :
    (l : DbLoader) (d : DbData) (w : World) (a : List ℕ) (answers : List (Option (List ℕ)))
    → IsReply w.response
    → (command_field w.response == Command.db_data) ≡ false
    → scan l d (some a ∷ answers) w
      ≡ scan l d answers (exchanged w (next_record_packet w.socket) a answers)
unfolding scan packet
scan-other l d w a answers h o = rw (scan, h.whole, o, h.not_done)

take_record-tagged :
    (l : DbLoader) (d : DbData) (w : World)
    → check_size w.response tagged_offset ≡ true
    → DbPacket.is_tagged l.packet.last_dbop ≡ true
    → take_record l d w
      ≡ ok (record { loader = l; record_data = tagged_record d.db_name w.response; found = true }) w
unfolding take_record DbPacket.parse_meta tagged_record
take_record-tagged l d w c t = rw (take_record, DbPacket.parse_meta, t, c)

scan-data :
    (l : DbLoader) (d : DbData) (w : World) (answers : List (Option (List ℕ)))
    → IsReply w.response
    → command_field w.response ≡ Command.db_data
    → DbPacket.is_tagged l.packet.last_dbop ≡ true
    → scan l d answers w
      ≡ ok (record { loader = l; record_data = tagged_record d.db_name w.response; found = true }) w
unfolding scan
scan-data l d w [] h o t = rw (scan, h.whole, o) (take_record-tagged l d w (h.tagged o) t)
scan-data l d w (a ∷ answers) h o t =
    rw (scan, h.whole, o) (take_record-tagged l d w (h.tagged o) t)

scan-last :
    (l : DbLoader) (d : DbData) (w : World) (answers : List (Option (List ℕ)))
    → IsLast w.response
    → scan l d answers w ≡ no_more l d w
unfolding scan
scan-last l d w [] h = rw (scan, h.whole, h.done)
scan-last l d w (a ∷ answers) h = rw (scan, h.whole, h.done)

pub load_from-last :
    (post : Option (List ℕ)) (fuel : ℕ) (l : DbLoader) (d : DbData) (w : World)
    → IsLast w.response
    → load_from post (suc fuel) l d w ≡ some (ok true w)
unfolding load_from load_on finish load_loop
load_from-last none fuel l d w h = rw (load_from, scan-last l d w w.answers h)
load_from-last (some name) fuel l d w h = rw (load_from, scan-last l d w w.answers h)

pub load_from-other :
    (post : Option (List ℕ)) (fuel : ℕ) (l : DbLoader) (d : DbData) (w : World) (a : List ℕ)
    (answers : List (Option (List ℕ)))
    → w.answers ≡ some a ∷ answers
    → IsReply w.response
    → (command_field w.response == Command.db_data) ≡ false
    → load_from post fuel l d w
      ≡ load_from post fuel l d (exchanged w (next_record_packet w.socket) a answers)
unfolding load_from
load_from-other post fuel l d w a answers e h o =
    ap (λ r. load_on fuel (finish post r))
      (ap (λ n. scan l d n w) e ∙ scan-other l d w a answers h o)

-- The record that the parser gets.
abbrev pub given : Option (List ℕ) → DbData → World → DbData
given post d w = tagged_record (given_name post d) w.response

get_next_record-loading :
    (l : DbLoader) (d : DbData) (w : World) (a : List ℕ) (answers : List (Option (List ℕ)))
    → w.answers ≡ some a ∷ answers
    → l.loading ≡ true
    → get_next_record l d w ≡ scan l d answers (exchanged w (next_record_packet w.socket) a answers)
unfolding get_next_record
get_next_record-loading l d w a answers e b =
    let next = next_record_packet w.socket in
    (λ i.
      if not (b i)
      then ok (record { loader = l; record_data = d; found = false }) w
      else elim (packet next w) [ threw x v ↦ threw x v | ok u v ↦ scan l d v.answers v ])
    ∙ (λ i. elim (packet-answered next w a answers e i) [
      | threw x v ↦ threw x v
      | ok u v ↦ scan l d v.answers v
    ])

next_round :
    (fuel : ℕ) (l : DbLoader) (d : DbData) (w : World) (a : List ℕ)
    (answers : List (Option (List ℕ)))
    → w.answers ≡ some a ∷ answers
    → l.loading ≡ true
    → load_loop (suc fuel) (record { loader = l; record_data = d; found = true }) w
      ≡ load_from none fuel l d (exchanged (give d w) (next_record_packet w.socket) a answers)
unfolding load_loop load_from load_on finish
next_round fuel l d w a answers e b =
    rw (load_loop, get_next_record-loading l d (give d w) a answers e b)

pub load_from-data :
    (post : Option (List ℕ)) (fuel : ℕ) (l : DbLoader) (d : DbData) (w : World) (a : List ℕ)
    (answers : List (Option (List ℕ)))
    → w.answers ≡ some a ∷ answers
    → IsReply w.response
    → command_field w.response ≡ Command.db_data
    → DbPacket.is_tagged l.packet.last_dbop ≡ true
    → l.loading ≡ true
    → load_from post (suc fuel) l d w
      ≡ load_from none fuel l
          (given post d w)
          (exchanged (give (given post d w) w) (next_record_packet w.socket) a answers)
unfolding load_from load_on finish given_name tagged_record
load_from-data none fuel l d w a answers e h o t b =
    ap (load_on (suc fuel)) (scan-data l d w w.answers h o t) ∙ next_round fuel l _ w a answers e b
load_from-data (some name) fuel l d w a answers e h o t b =
    ap (λ r. load_on (suc fuel) (set_db_name name r)) (scan-data l d w w.answers h o t)
    ∙ next_round fuel l (given (some name) d w) w a answers e b
