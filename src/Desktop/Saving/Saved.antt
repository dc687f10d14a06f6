-- ===== src/Desktop/Saving/Saved.antt =====
-- `SaveDatabase` of src/m_desktop.cc: what the device was asked where the call returns.
use barry.Prelude.{
  ℕ, ◌≡◌, ◌≢◌, refl, sym, ap, ◌∙◌, subst, suc, Bool, true, Option, some, List, [], ◌∷◌, ◌++◌, arith,
  All, length,
}
use mathlib.Core.List.{append-nil}
use barry.DbPacket.{Outcome, returned, raised}
use barry.Desktop.{World, Result, Built, ok, threw}
use barry.Desktop.Exchange.{
  IsDone, command_code, exchanged, bind-ok, bind-returned, request-answered, request-returned,
  pure-ok,
}
use barry.Desktop.Records.{request, add_built}
use barry.Desktop.Saving.{clear_database, save_loop, save_database}
use barry.Desktop.Saving.Packets.{
  clear_packet, add_packet, clear_checks-IsDone, clear_checks-returned, add_built-exchanged,
  add_built-returned, built_all, add_packets, saved, last_of, answered_by, saved-exchanged,
  added_then,
}

pub record Saves (db_id : ℕ) (builder : List (Outcome Built)) (w v : World) : Type 0 where
  pub records : List Built
  pub replies : List (List ℕ)
  pub all_built : builder ≡ built_all records
  pub one_each : length replies ≡ length records
  pub all_done : All IsDone replies
  pub answered : w.answers ≡ answered_by replies v.answers
  pub result :
      v
      ≡ saved w
          (add_packets w.socket (command_code w) db_id records)
          (last_of w.response replies)
          v.answers

save_loop-saved :
    (db_id : ℕ) (bs : List Built) (w : World) (replies : List (List ℕ))
    (rest : List (Option (List ℕ)))
    → command_code w ≢ 0
    → length replies ≡ length bs
    → All IsDone replies
    → w.answers ≡ answered_by replies rest
    → save_loop db_id (built_all bs) w
      ≡ ok true (
          saved w
            (add_packets w.socket (command_code w) db_id bs)
            (last_of w.response replies)
            rest)
unfolding save_loop
save_loop-saved db_id [] w [] rest c l d e =
    ap (ok true)
      (λ i. record w { sent = sym (append-nil w.sent) i; response = w.response; answers = e i })
save_loop-saved db_id [] w (a ∷ replies) rest c l d e = absurd (omega arith)
save_loop-saved db_id (b ∷ bs) w [] rest c l d e = absurd (omega arith)
save_loop-saved db_id (b ∷ bs) w (a ∷ replies) rest c l (d, ds) e =
    let v = exchanged w (add_packet w db_id b) a (answered_by replies rest) in
    added_then db_id (built_all bs) b w v (add_built-exchanged db_id b w a _ c e d)
    ∙ (save_loop-saved db_id bs v replies rest c (omega arith) ds refl
        ∙ ap (ok true) (
            saved-exchanged w (add_packet w db_id b)
              (add_packets w.socket (command_code w) db_id bs) a (last_of a replies)
              (answered_by replies rest) rest))

Saves-cons :
    (db_id : ℕ) (b : Built) (builder : List (Outcome Built)) (w v1 v : World) (a : List ℕ)
    (answers : List (Option (List ℕ)))
    → w.answers ≡ some a ∷ answers
    → IsDone a
    → v1 ≡ exchanged w (add_packet w db_id b) a answers
    → Saves db_id builder v1 v
    → Saves db_id (returned b ∷ builder) w v
Saves-cons db_id b builder w v1 v a answers e d after s =
    let t = subst (λ x. Saves db_id builder x v) after s in
    record {
      records = b ∷ t.records;
      replies = a ∷ t.replies;
      all_built = ap (◌∷◌ (returned b)) t.all_built;
      one_each = ap suc t.one_each;
      all_done = (d, t.all_done);
      answered = e ∙ ap (◌∷◌ (some a)) t.answered;
      result =
          t.result
          ∙ saved-exchanged w (add_packet w db_id b)
              (add_packets w.socket (command_code w) db_id t.records) a (last_of a t.replies)
              answers v.answers;
    }

save_loop-returned :
    (db_id : ℕ) (builder : List (Outcome Built)) (w : World) (u : Bool) (v : World)
    → save_loop db_id builder w ≡ ok u v
    → Saves db_id builder w v
unfolding save_loop
save_loop-returned db_id [] w u v h =
    let (is_u, same) = pure-ok true u w v h in
    record {
      records = [];
      replies = [];
      all_built = refl;
      one_each = refl;
      all_done = tt;
      answered = ap (λ (x : World). x.answers) (sym same);
      result =
          (λ i. record v { sent = sym (append-nil v.sent) i })
          ∙ (λ i. record (same i) { sent = (same i).sent ++ []; answers = v.answers });
    }
save_loop-returned db_id (raised e ∷ builder) w u v h = absurd (cc h)
save_loop-returned db_id (returned b ∷ builder) w u v h =
    go (add_built db_id b w) refl h (save_loop-returned db_id builder)
  where
    go :
        (r : Result Bool)
        → add_built db_id b w ≡ r
        → Path
            (Result Bool)
            (elim r [ threw e v1 ↦ threw e v1 | ok u1 v1 ↦ save_loop db_id builder v1 ])
            (ok u v)
        → ((w1 : World) (u1 : Bool) (v1 : World)
            → save_loop db_id builder w1 ≡ ok u1 v1
            → Saves db_id builder w1 v1)
        → Saves db_id (returned b ∷ builder) w v
    go (threw e v1) q g rest = absurd (cc g)
    go (ok u1 v1) q g rest =
        let (a, answers, known, e, d, after) = add_built-returned db_id b w u1 v1 q in
        Saves-cons db_id b builder w v1 v a answers e d after (rest v1 u v g)

clear_database-exchanged :
    (db_id : ℕ) (w : World) (a : List ℕ) (answers : List (Option (List ℕ)))
    → command_code w ≢ 0
    → w.answers ≡ some a ∷ answers
    → IsDone a
    → clear_database db_id w ≡ ok true (exchanged w (clear_packet w db_id) a answers)
unfolding clear_database
clear_database-exchanged db_id w a answers c e d =
    bind-ok (request _) _ w _ _ (request-answered _ w a answers c e)
    ∙ clear_checks-IsDone (exchanged w (clear_packet w db_id) a answers) d

clear_database-returned :
    (db_id : ℕ) (w : World) (u : Bool) (v : World)
    → clear_database db_id w ≡ ok u v
    → (a : List ℕ) × (answers : List (Option (List ℕ))) × (command_code w ≢ 0)
      × (w.answers ≡ some a ∷ answers)
      × IsDone a
      × (v ≡ exchanged w (clear_packet w db_id) a answers)
unfolding clear_database
clear_database-returned db_id w u v h =
    let (p, w1, asked, checked) = bind-returned (request _) _ w u v h in
    let (a, answers, known, e, is_p, after) = request-returned _ w p w1 asked in
    let (fine, same) = clear_checks-returned w1 u v checked in
    (a, answers, known, e, subst (λ (x : World). IsDone x.response) after fine, same ∙ after)

-- `SaveDatabase` returns where the device answers the request to clear the database and each
-- record with DB_DONE and the code 0. Then it has sent the request and all records, in their order.
pub save_database-saved :
    (db_id : ℕ) (records : List Built) (w : World) (a : List ℕ) (replies : List (List ℕ))
    (rest : List (Option (List ℕ)))
    → command_code w ≢ 0
    → length replies ≡ length records
    → IsDone a
    → All IsDone replies
    → w.answers ≡ some a ∷ answered_by replies rest
    → save_database db_id (built_all records) w
      ≡ ok true (
          saved w
            (clear_packet w db_id ∷ add_packets w.socket (command_code w) db_id records)
            (last_of a replies)
            rest)
unfolding save_database
save_database-saved db_id records w a replies rest c l d ds e =
    let v = exchanged w (clear_packet w db_id) a (answered_by replies rest) in
    bind-ok (clear_database db_id) _ w true v (clear_database-exchanged db_id w a _ c e d)
    ∙ (save_loop-saved db_id records v replies rest c l ds refl
        ∙ ap (ok true) (
            saved-exchanged w (clear_packet w db_id)
              (add_packets w.socket (command_code w) db_id records) a (last_of a replies)
              (answered_by replies rest) rest))

-- Where `SaveDatabase` returns, the builder threw nothing, the device was sent the request to clear
-- the database and after it every record of the builder, in their order and nothing else, and it
-- answered each packet with DB_DONE and the code 0.
pub save_database-returned :
    (db_id : ℕ) (builder : List (Outcome Built)) (w : World) (u : Bool) (v : World)
    → save_database db_id builder w ≡ ok u v
    → (a : List ℕ) × (answers : List (Option (List ℕ))) × (command_code w ≢ 0)
      × (w.answers ≡ some a ∷ answers)
      × IsDone a
      × Saves db_id builder (exchanged w (clear_packet w db_id) a answers) v
unfolding save_database
save_database-returned db_id builder w u v h =
    let (b, w1, cleared, looped) = bind-returned (clear_database db_id) _ w u v h in
    let (a, answers, known, e, d, after) = clear_database-returned db_id w b w1 cleared in
    (
      a,
      answers,
      known,
      e,
      d,
      subst (λ x. Saves db_id builder x v) after (save_loop-returned db_id builder w1 u v looped),
    )
