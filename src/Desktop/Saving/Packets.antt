-- ===== src/Desktop/Saving/Packets.antt =====
-- The packets that `ClearDatabase` and `AddRecord` exchange, and those of a whole database.
use barry.Prelude.{
  ℕ, ◌≡◌, ◌≢◌, ap, ◌∙◌, subst, Bool, true, Option, some, List, [], ◌∷◌, ◌++◌, arith,
}
use mathlib.Core.List.{append_assoc}
use barry.Protocol.{check_size}
use barry.DbPacket
use barry.DbPacket.{DbPacket, Outcome, returned, raised, return_code_error, unexpected_command}
use barry.Desktop.{World, Built, ok, command, return_code}
use barry.Desktop.Exchange.{
  IsDone, command_code, exchanged, bind-ok, bind-returned, request-answered, request-returned,
  check_size_mono, check_answer-IsDone, check_answer-returned,
}
use barry.Desktop.Records.{request, add_built}
use barry.Desktop.Saving.{clear_checks, save_loop}

-- The packets of a database that is saved.
abbrev pub clear_packet : World → ℕ → List ℕ
clear_packet w db_id = (DbPacket.clear_database w.socket (command_code w) db_id).send

abbrev pub add_packet : World → ℕ → Built → List ℕ
add_packet w db_id b =
    (DbPacket.add_record w.socket (command_code w) db_id b.rec_type b.unique_id b.bytes).send

pub clear_checks-IsDone : (w : World) → IsDone w.response → clear_checks w ≡ ok true w
unfolding clear_checks command return_code DbPacket.return_code DbPacket.packet_command
clear_checks-IsDone w d =
    let short : check_size w.response 5 ≡ true =
      check_size_mono w.response 5 7 (omega arith) d.whole in
    ground (arith, short, d.done, d.whole, d.zero_code)

pub clear_checks-returned :
    (w : World) (b : Bool) (v : World) → clear_checks w ≡ ok b v → IsDone w.response × (v ≡ w)
unfolding clear_checks command return_code DbPacket.return_code DbPacket.packet_command
clear_checks-returned w b v h = ground arith

pub add_built-exchanged :
    (db_id : ℕ) (b : Built) (w : World) (a : List ℕ) (answers : List (Option (List ℕ)))
    → command_code w ≢ 0
    → w.answers ≡ some a ∷ answers
    → IsDone a
    → add_built db_id b w ≡ ok true (exchanged w (add_packet w db_id b) a answers)
unfolding add_built
add_built-exchanged db_id b w a answers c e d =
    bind-ok (request _) _ w _ _ (request-answered _ w a answers c e)
    ∙ check_answer-IsDone (exchanged w (add_packet w db_id b) a answers) d

pub add_built-returned :
    (db_id : ℕ) (b : Built) (w : World) (u : Bool) (v : World)
    → add_built db_id b w ≡ ok u v
    → (a : List ℕ) × (answers : List (Option (List ℕ))) × (command_code w ≢ 0)
      × (w.answers ≡ some a ∷ answers)
      × IsDone a
      × (v ≡ exchanged w (add_packet w db_id b) a answers)
unfolding add_built
add_built-returned db_id b w u v h =
    let (p, w1, asked, checked) = bind-returned (request _) _ w u v h in
    let (a, answers, known, e, is_p, after) = request-returned _ w p w1 asked in
    let (fine, same) = check_answer-returned w1 u v checked in
    (a, answers, known, e, subst (λ (x : World). IsDone x.response) after fine, same ∙ after)

-- What the records of a builder that does not throw send.
abbrev pub built_all : List Built → List (Outcome Built)
built_all [] = []
built_all (b ∷ bs) = returned b ∷ built_all bs

abbrev pub add_packets : ℕ → ℕ → ℕ → List Built → List (List ℕ)
add_packets socket code db_id [] = []
add_packets socket code db_id (b ∷ bs) =
    (DbPacket.add_record socket code db_id b.rec_type b.unique_id b.bytes).send
    ∷ add_packets socket code db_id bs

-- The world after the packets were sent, and answered one by one.
abbrev pub saved : World → List (List ℕ) → List ℕ → List (Option (List ℕ)) → World
saved w packets response answers = record w {
  sent = w.sent ++ packets;
  response = response;
  answers = answers;
}

-- The last answer.
abbrev pub last_of : List ℕ → List (List ℕ) → List ℕ
last_of r [] = r
last_of r (a ∷ replies) = last_of a replies

abbrev pub answered_by : List (List ℕ) → List (Option (List ℕ)) → List (Option (List ℕ))
answered_by [] rest = rest
answered_by (a ∷ replies) rest = some a ∷ answered_by replies rest

pub saved-exchanged :
    (w : World) (p : List ℕ) (ps : List (List ℕ)) (a r : List ℕ)
    (answers rest : List (Option (List ℕ)))
    → saved (exchanged w p a answers) ps r rest ≡ saved w (p ∷ ps) r rest
saved-exchanged w p ps a r answers rest =
    ap (λ s. record w { sent = s; response = r; answers = rest }) (append_assoc w.sent (p ∷ []) ps)

pub added_then :
    (db_id : ℕ) (builder : List (Outcome Built)) (b : Built) (w v : World)
    → add_built db_id b w ≡ ok true v
    → save_loop db_id (returned b ∷ builder) w ≡ save_loop db_id builder v
unfolding save_loop
added_then db_id builder b w v e = rw (save_loop, e)

-- The device was sent what the builder built, and each packet was answered with DB_DONE and 0.
