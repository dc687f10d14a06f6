-- ===== src/Desktop/Loading/Collect.antt =====
-- `LoadDatabase` of src/m_desktop.cc: the records that the parser is given.
use barry.Prelude.{
  ℕ, zero, suc, ◌<◌, ◌≡◌, ◌≢◌, refl, sym, ap, ◌∙◌, true, false, Option, none, some, List, [], ◌∷◌,
  ◌++◌, ◌==◌, if◌then◌else◌, length, arith, All, replicate, Bool-cases, inl, inr, subst, ==_iff,
}
use mathlib.Core.List.{append_assoc, append-nil}
use barry.Protocol.{command_field}
use barry.Protocol.Command
use barry.DatabaseDatabase.{get_db_name}
use barry.DbPacket
use barry.DbPacket.{DbPacket, DbData, tagged_record, tagged_offset}
use barry.Desktop.{World, ok, next_record_packet}
use barry.Desktop.Exchange.{command_code, exchanged, request-answered}
use barry.Desktop.Loading.{DbLoader, start_db_load, give, load_database, new_data, name_or}
use barry.Desktop.Loading.Rounds.{
  IsReply, IsLast, finish, load_on, load_from, given_name, load_from-last, load_from-other, given,
  load_from-data,
}

-- The records in the answers before DB_DONE.
abbrev pub records_in : List ℕ → List (List ℕ) → List DbData
records_in name [] = []
records_in name (p ∷ ps) =
    if command_field p == Command.db_data
    then tagged_record name p ∷ records_in name ps
    else records_in name ps

-- The world after the load: each answer but the last was followed by a request for the next one.
abbrev pub collected : World → List ℕ → List (List ℕ) → List ℕ → List (Option (List ℕ)) → World
collected w name ps last rest = record w {
  sent = w.sent ++ replicate (length ps) (next_record_packet w.socket);
  parsed = w.parsed ++ records_in name ps;
  response = last;
  answers = rest;
}

-- The answers up to DB_DONE, and what the device says after it.
abbrev pub replies_then : List (List ℕ) → List ℕ → List (Option (List ℕ)) → List (Option (List ℕ))
replies_then [] last rest = some last ∷ rest
replies_then (p ∷ ps) last rest = some p ∷ replies_then ps last rest

-- The first of them, and the others.
abbrev pub first_of : List (List ℕ) → List ℕ → List ℕ
first_of [] last = last
first_of (p ∷ ps) last = p

abbrev pub after_first : List (List ℕ) → List ℕ → List (Option (List ℕ)) → List (Option (List ℕ))
after_first [] last rest = rest
after_first (p ∷ ps) last rest = replies_then ps last rest

replies_then-first :
    (ps : List (List ℕ)) (last : List ℕ) (rest : List (Option (List ℕ)))
    → replies_then ps last rest ≡ some (first_of ps last) ∷ after_first ps last rest
replies_then-first [] last rest = refl
replies_then-first (p ∷ ps) last rest = refl

collected-nil :
    (w : World) (name last : List ℕ) (rest : List (Option (List ℕ)))
    → w.response ≡ last
    → w.answers ≡ rest
    → w ≡ collected w name [] last rest
collected-nil w name last rest r e = λ i. record w {
  sent = sym (append-nil w.sent) i;
  parsed = sym (append-nil w.parsed) i;
  response = r i;
  answers = e i;
}

collected-other :
    (w : World) (name p last a : List ℕ) (ps : List (List ℕ))
    (answers rest : List (Option (List ℕ)))
    → (command_field p == Command.db_data) ≡ false
    → collected (exchanged w (next_record_packet w.socket) a answers) name ps last rest
      ≡ collected w name (p ∷ ps) last rest
collected-other w name p last a ps answers rest o = λ i. record w {
  sent =
      append_assoc w.sent (next_record_packet w.socket ∷ [])
        (replicate (length ps) (next_record_packet w.socket)) i;
  parsed =
      w.parsed
      ++ (if sym o i then tagged_record name p ∷ records_in name ps else records_in name ps);
  response = last;
  answers = rest;
}

collected-data :
    (w : World) (name p last a : List ℕ) (ps : List (List ℕ))
    (answers rest : List (Option (List ℕ)))
    → (command_field p == Command.db_data) ≡ true
    → collected
        (exchanged (give (tagged_record name p) w) (next_record_packet w.socket) a answers)
        name
        ps
        last
        rest
      ≡ collected w name (p ∷ ps) last rest
collected-data w name p last a ps answers rest o =
    (λ i. record w {
      sent =
          append_assoc w.sent (next_record_packet w.socket ∷ [])
            (replicate (length ps) (next_record_packet w.socket)) i;
      parsed = append_assoc w.parsed (tagged_record name p ∷ []) (records_in name ps) i;
      response = last;
      answers = rest;
    })
    ∙ (λ i. record w {
      sent = w.sent ++ replicate (length (p ∷ ps)) (next_record_packet w.socket);
      parsed =
          w.parsed
          ++ (if sym o i then tagged_record name p ∷ records_in name ps else records_in name ps);
      response = last;
      answers = rest;
    })

-- The record that was given is that of the answer, and the data keeps the name.
load_from-named :
    (post : Option (List ℕ)) (fuel : ℕ) (l : DbLoader) (d : DbData) (w : World) (p : List ℕ)
    (ps : List (List ℕ)) (last : List ℕ) (rest : List (Option (List ℕ))) (a : List ℕ)
    (answers : List (Option (List ℕ)))
    → w.response ≡ p
    → load_from none fuel l
        (given post d w)
        (exchanged (give (given post d w) w) (next_record_packet w.socket) a answers)
      ≡ some (
          ok true (
            collected
              (exchanged (give (given post d w) w) (next_record_packet w.socket) a answers)
              (given_name none (given post d w))
              ps
              last
              rest))
    → load_from none fuel l
        (given post d w)
        (exchanged (give (given post d w) w) (next_record_packet w.socket) a answers)
      ≡ some (
          ok true (
            collected
              (exchanged
                (give (tagged_record (given_name post d) p) w)
                (next_record_packet w.socket)
                a
                answers)
              (given_name post d)
              ps
              last
              rest))
unfolding given_name tagged_record
load_from-named post fuel l d w p ps last rest a answers r h = h ∙ (λ i. some (
    ok true (
      collected
        (exchanged (give (tagged_record (given_name post d) (r i)) w) (next_record_packet w.socket)
          a answers)
        (given_name post d) ps last rest)))

load_from-collected :
    (post : Option (List ℕ)) (fuel : ℕ) (l : DbLoader) (d : DbData) (w : World) (ps : List (List ℕ))
    (last : List ℕ) (rest : List (Option (List ℕ)))
    → length ps < fuel
    → w.response ≡ first_of ps last
    → w.answers ≡ after_first ps last rest
    → All IsReply ps
    → IsLast last
    → DbPacket.is_tagged l.packet.last_dbop ≡ true
    → l.loading ≡ true
    → load_from post fuel l d w ≡ some (ok true (collected w (given_name post d) ps last rest))
load_from-collected post zero l d w ps last rest f r e v q t b = absurd (omega arith)
load_from-collected post (suc fuel) l d w [] last rest f r e v q t b =
    load_from-last post fuel l d w (subst IsLast (sym r) q)
    ∙ ap (λ u. some (ok true u)) (collected-nil w (given_name post d) last rest r e)
load_from-collected post (suc fuel) l d w (p ∷ ps) last rest f r e (v, vs) q t b =
    let a = first_of ps last in
    let answers = after_first ps last rest in
    let name = given_name post d in
    let e' : w.answers ≡ some a ∷ answers = e ∙ replies_then-first ps last rest in
    let v' = subst IsReply (sym r) v in
    elim (Bool-cases (command_field p == Command.db_data)) [
      | inl o ↦
          load_from-data post fuel l d w a answers e' v'
            (ap command_field r ∙ (==_iff (command_field p) Command.db_data).0 o) t b
          ∙ (load_from-named post fuel l d w p ps last rest a answers r (
                load_from-collected none fuel l (given post d w)
                  (exchanged (give (given post d w) w) (next_record_packet w.socket) a answers) ps
                  last rest (omega arith) refl refl vs q t b)
              ∙ ap (λ u. some (ok true u)) (collected-data w name p last a ps answers rest o))
      | inr o ↦
          load_from-other post (suc fuel) l d w a answers e' v'
            (ap (λ x. command_field x == Command.db_data) r ∙ o)
          ∙ (load_from-collected post (suc fuel) l d
                (exchanged w (next_record_packet w.socket) a answers) ps last rest (omega arith)
                refl refl vs q t b
              ∙ ap (λ u. some (ok true u)) (collected-other w name p last a ps answers rest o))
    ]

length-replies_then :
    (ps : List (List ℕ)) (last : List ℕ) (rest : List (Option (List ℕ)))
    → length ps < length (replies_then ps last rest)
length-replies_then [] last rest = omega arith
length-replies_then (p ∷ ps) last rest = omega (arith, length-replies_then ps last rest)

-- The loader after `StartDBLoad` has sent its request.
abbrev started : World → ℕ → DbLoader
started w db_id = record {
  loading = true;
  db_name = name_or [] (get_db_name db_id w.dbdb);
  packet = DbPacket.get_records w.socket (command_code w) db_id;
}

load_database-started :
    (db_id : ℕ) (w : World) (a : List ℕ) (answers : List (Option (List ℕ)))
    → command_code w ≢ 0
    → w.answers ≡ some a ∷ answers
    → load_database db_id w
      ≡ load_from
          (some (name_or [] (get_db_name db_id w.dbdb)))
          (suc (suc (length w.answers)))
          (started w db_id)
          new_data
          (exchanged w (DbPacket.get_records w.socket (command_code w) db_id).send a answers)
unfolding load_database start_db_load load_from load_on finish
load_database-started db_id w a answers c e = rw (
  load_database,
  start_db_load,
  request-answered (λ s k. DbPacket.get_records s k db_id) w a answers c e,
)

-- `LoadDatabase` ends where the device answers the request and what follows with packets that have
-- a header, those with DB_DATA that of a record, up to one with DB_DONE. Then the parser was given
-- the records of the answers with DB_DATA, in their order and no others, under the name of the
-- database; the device was asked once for each further answer; and what the device says after
-- DB_DONE is not read.
pub load_database-collected :
    (db_id : ℕ) (w : World) (ps : List (List ℕ)) (last : List ℕ) (rest : List (Option (List ℕ)))
    → command_code w ≢ 0
    → All IsReply ps
    → IsLast last
    → w.answers ≡ replies_then ps last rest
    → load_database db_id w
      ≡ some (
          ok true (
            collected
              (exchanged w
                (DbPacket.get_records w.socket (command_code w) db_id).send
                (first_of ps last)
                (after_first ps last rest))
              (name_or [] (get_db_name db_id w.dbdb))
              ps
              last
              rest))
unfolding given_name DbPacket.get_records
load_database-collected db_id w ps last rest c v q e =
    load_database-started db_id w (first_of ps last) (after_first ps last rest) c
      (e ∙ replies_then-first ps last rest)
    ∙ load_from-collected (some (name_or [] (get_db_name db_id w.dbdb)))
        (suc (suc (length w.answers))) (started w db_id) new_data
        (exchanged w (DbPacket.get_records w.socket (command_code w) db_id).send (first_of ps last)
          (after_first ps last rest))
        ps last rest
        (omega (
          arith,
          length-replies_then ps last rest,
          ap (λ (x : List (Option (List ℕ))). length x) e,
        ))
        refl refl v q refl refl
