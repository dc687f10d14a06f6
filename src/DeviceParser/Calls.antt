-- ===== src/DeviceParser/Calls.antt =====
-- The calls of src/m_desktop.cc that the device parser makes, and the packets that they send.
use barry.Prelude.{
  ℕ, ◌≢◌, Bool, true, false, not, Option, none, some, List, [], ◌∷◌, ◌++◌, ◌==◌, if◌then◌else◌,
  arith, All,
}
use barry.Protocol.{get_u8, check_size, command_field}
use barry.Protocol.Command
use barry.Protocol.Operation
use barry.DbPacket
use barry.DbPacket.{DbPacket, DbData, Outcome, returned, raised}
use barry.Desktop.{
  World, Result, Call, Built, ok, threw, ◌>>=◌, packet, next_record_packet, until_done, flush, lift,
  get_db_command, get, pure, throw, check_answer, command, return_code,
}
use barry.Desktop.Records.{request, add_built, add_record, parsed_table, get_record_state_table}
use barry.RecordState
use barry.RecordState.{RecordStateTable}

-- The packet does not clear a database, and neither overwrites nor deletes a record in it.
abbrev pub Keeps : List ℕ → Type 0
Keeps p =
    (get_u8 p 6 ≢ Operation.clear_database)
    × (get_u8 p 6 ≢ Operation.set_record_by_index)
    × (get_u8 p 6 ≢ Operation.delete_record_by_index)
    × (get_u8 p 6 ≢ Operation.set_record_flags)

abbrev pub world_of {ℓ} : {A : Type ℓ} → Result A → World
world_of (ok a w) = w
world_of (threw e w) = w

-- The call sends only such packets.
pub record OnlyKeeps {A : Type 0} (m : Call A) : Type 0 where
  pub keeps : (w : World) → All Keeps w.sent → All Keeps (world_of (m w)).sent

All-append {ℓ κ} :
    {A : Type ℓ} (P : A → Type κ) (xs : List A) (x : A) → All P xs → P x → All P (xs ++ (x ∷ []))
All-append P [] x h p = (p, tt)
All-append P (y ∷ xs) x (q, h) p = (q, All-append P xs x h p)

packet-OnlyKeeps : (p : List ℕ) → Keeps p → OnlyKeeps (packet p)
unfolding packet
packet-OnlyKeeps p k = record { keeps = λ w h. go w w.answers (All-append Keeps w.sent p h k) }
  where
    go :
        (w : World) (answers : List (Option (List ℕ)))
        → All Keeps (w.sent ++ (p ∷ []))
        → All Keeps
            (world_of (
              let result : Result Bool = elim answers [
                | [] ↦
                    threw DbPacket.socket_error
                      (record w { sent = w.sent ++ (p ∷ []); response = [] })
                | answer ∷ rest ↦ elim answer [
                  | none ↦
                      threw DbPacket.socket_error
                        (record w { sent = w.sent ++ (p ∷ []); response = []; answers = rest })
                  | some a ↦
                      ok true (record w { sent = w.sent ++ (p ∷ []); response = a; answers = rest })
                ]
              ] in
              result)).sent
    go w [] h = h
    go w (none ∷ rest) h = h
    go w (some a ∷ rest) h = h

bind-OnlyKeeps :
    {A B : Type 0} (m : Call A) (f : A → Call B)
    → OnlyKeeps m
    → ((a : A) → OnlyKeeps (f a))
    → OnlyKeeps (m >>= f)
bind-OnlyKeeps {A} {B} m f h g = record { keeps = λ w k. go (m w) (h.keeps w k) }
  where
    go :
        (r : Result A)
        → All Keeps (world_of r).sent
        → All Keeps (world_of {A = B} (elim r [ ok a w' ↦ f a w' | threw e w' ↦ threw e w' ])).sent
    go (ok a w) k = (g a).keeps w k
    go (threw e w) k = k

if-OnlyKeeps :
    {A : Type 0} (b : Bool) (m n : Call A)
    → OnlyKeeps m
    → OnlyKeeps n
    → OnlyKeeps (if b then m else n)
if-OnlyKeeps true m n h k = h
if-OnlyKeeps false m n h k = k

if_Keeps :
    {A : Type 0} (b : Bool) (x y : Result A)
    → All Keeps (world_of x).sent
    → All Keeps (world_of y).sent
    → All Keeps (world_of (if b then x else y)).sent
if_Keeps true x y h k = h
if_Keeps false x y h k = k

get_db_command-OnlyKeeps : OnlyKeeps get_db_command
unfolding get_db_command
get_db_command-OnlyKeeps = record { keeps = λ w h. ground arith }

request-OnlyKeeps :
    (build : ℕ → ℕ → DbPacket) → ((s c : ℕ) → Keeps (build s c).send) → OnlyKeeps (request build)
unfolding request
request-OnlyKeeps build k = bind-OnlyKeeps get_db_command _ get_db_command-OnlyKeeps (λ c.
    bind-OnlyKeeps get _ (record { keeps = λ w h. h })
      (λ w.
        bind-OnlyKeeps (packet _) _ (packet-OnlyKeeps _ (k w.socket c))
          (λ u. record { keeps = λ w' h. h })))

throw-OnlyKeeps : {A : Type 0} (e : DbPacket.Error) → OnlyKeeps (throw {A = A} e)
throw-OnlyKeeps e = record { keeps = λ w h. h }

pure-OnlyKeeps : {A : Type 0} (a : A) → OnlyKeeps (pure a)
pure-OnlyKeeps a = record { keeps = λ w h. h }

lift-OnlyKeeps : {A : Type 0} (o : Outcome A) → OnlyKeeps (lift o)
lift-OnlyKeeps (returned a) = record { keeps = λ w h. h }
lift-OnlyKeeps (raised e) = record { keeps = λ w h. h }

command-OnlyKeeps : OnlyKeeps command
unfolding command
command-OnlyKeeps = record {
  keeps = λ w h. (lift-OnlyKeeps (DbPacket.packet_command w.response)).keeps w h;
}

return_code-OnlyKeeps : OnlyKeeps return_code
unfolding return_code
return_code-OnlyKeeps = record {
  keeps = λ w h. (lift-OnlyKeeps (DbPacket.return_code w.response)).keeps w h;
}

check_answer-OnlyKeeps : OnlyKeeps check_answer
unfolding check_answer
check_answer-OnlyKeeps = bind-OnlyKeeps command _ command-OnlyKeeps (λ c.
    if-OnlyKeeps (not (c == Command.db_done)) _ _ (throw-OnlyKeeps DbPacket.unexpected_command) (
      bind-OnlyKeeps return_code _ return_code-OnlyKeeps (λ code.
        if-OnlyKeeps (not (code == 0)) _ _ (throw-OnlyKeeps (DbPacket.return_code_error c code))
          (pure-OnlyKeeps true))))

add_built-OnlyKeeps : (db_id : ℕ) (b : Built) → OnlyKeeps (add_built db_id b)
unfolding add_built DbPacket.add_record
add_built-OnlyKeeps db_id b =
    bind-OnlyKeeps (request _) _
      (request-OnlyKeeps (λ s c. DbPacket.add_record s c db_id b.rec_type b.unique_id b.bytes)
        (λ s c. omega arith))
      (λ p. check_answer-OnlyKeeps)

pub add_record-OnlyKeeps : (db_id : ℕ) (o : Outcome Built) → OnlyKeeps (add_record db_id (some o))
unfolding add_record
add_record-OnlyKeeps db_id o =
    bind-OnlyKeeps (lift o) _ (lift-OnlyKeeps o) (λ b. add_built-OnlyKeeps db_id b)

next-OnlyKeeps : (s : ℕ) → OnlyKeeps (packet (next_record_packet s))
next-OnlyKeeps s = packet-OnlyKeeps (next_record_packet s) (omega arith)

until_done-OnlyKeeps : (answers : List (Option (List ℕ))) → OnlyKeeps (until_done (λ w. w) answers)
unfolding until_done
until_done-OnlyKeeps [] = record {
  keeps = λ w h. if_Keeps (not (check_size w.response 5)) _ _ h (
      if_Keeps (command_field w.response == Command.db_done) _ _ h
        ((next-OnlyKeeps w.socket).keeps (record w { answers = [] }) h));
}
until_done-OnlyKeeps (a ∷ answers) = record {
  keeps = λ w h. if_Keeps (not (check_size w.response 5)) _ _ h (
      if_Keeps (command_field w.response == Command.db_done) _ _ h (
        (bind-OnlyKeeps (packet (next_record_packet w.socket)) (λ u. until_done (λ v. v) answers)
            (next-OnlyKeeps w.socket) (λ u. until_done-OnlyKeeps answers)).keeps
          (record w { answers = a ∷ answers }) h));
}

pub get_record_state_table-OnlyKeeps :
    (db_id : ℕ) (t : RecordStateTable) → OnlyKeeps (λ w. (get_record_state_table db_id t w).1)
unfolding get_record_state_table DbPacket.get_record_state_table flush
get_record_state_table-OnlyKeeps db_id t = record {
  keeps = λ w h. go (request (λ s c. DbPacket.get_record_state_table s c db_id) w) (
      (request-OnlyKeeps (λ s c. DbPacket.get_record_state_table s c db_id)
          (λ s c. omega arith)).keeps
        w h);
}
  where
    go :
        (r : Result DbPacket)
        → All Keeps (world_of r).sent
        → All Keeps
            (world_of
              (let x : RecordStateTable × Result Bool = elim r [
                | threw e v ↦ (RecordState.clear t, threw e v)
                | ok p v ↦ (parsed_table (RecordState.clear t) v.response, flush v)
              ] in
                x).1).sent
    go (threw e v) h = h
    go (ok p v) h = (until_done-OnlyKeeps v.answers).keeps v h
