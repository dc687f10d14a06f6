-- ===== src/Desktop/Exchange.antt =====
-- What an exchange with the device does: a request that is answered, and the check of the answer.
use barry.Prelude.{
  ℕ, ◌≤◌, ◌≡◌, ◌≢◌, refl, sym, ap, ◌∙◌, ◌⊎◌, inl, inr, Bool, true, Option, none, some, List, [],
  ◌∷◌, ◌++◌, arith,
}
use barry.Protocol.{check_size, command_field, get_u8}
use barry.Protocol.Command
use barry.CommandTable
use barry.DbPacket
use barry.DbPacket.{DbPacket}
use barry.Desktop.{
  World, Result, Call, ok, threw, packet, get_db_command, command, return_code, check_answer,
  database_access, ◌>>=◌,
}
use barry.Desktop.Records.{request}

-- `CheckSize` accepts the answer with its return code, which is 0.
pub record IsDone (a : List ℕ) : Type 0 where
  pub whole : check_size a 7 ≡ true
  pub done : command_field a ≡ Command.db_done
  pub zero_code : get_u8 a 6 ≡ 0

-- The code of the database commands in the table, 0 where it has none.
abbrev pub command_code : World → ℕ
command_code w = CommandTable.get_command database_access w.command_table

-- The world after a packet was sent and answered.
abbrev pub exchanged : World → List ℕ → List ℕ → List (Option (List ℕ)) → World
exchanged w p a answers = record w { sent = w.sent ++ (p ∷ []); response = a; answers = answers }

pub check_size_mono : (p : List ℕ) (m n : ℕ) → m ≤ n → check_size p n ≡ true → check_size p m ≡ true
unfolding check_size
check_size_mono p m n h c = ground arith

pub bind-ok :
    {A B : Type 0} (m : Call A) (f : A → Call B) (w : World) (a : A) (v : World)
    → m w ≡ ok a v
    → (m >>= f) w ≡ f a v
bind-ok m f w a v e = λ i. elim (e i) [ ok b w' ↦ f b w' | threw x w' ↦ threw x w' ]

pub bind-returned :
    {A B : Type 0} (m : Call A) (f : A → Call B) (w : World) (b : B) (v : World)
    → (m >>= f) w ≡ ok b v
    → (a : A) × (u : World) × (m w ≡ ok a u) × (f a u ≡ ok b v)
bind-returned {A} {B} m f w b v h = go (m w) refl h
  where
    go :
        (r : Result A)
        → m w ≡ r
        → Path (Result B) (elim r [ ok a u ↦ f a u | threw x u ↦ threw x u ]) (ok b v)
        → (a : A) × (u : World) × (m w ≡ ok a u) × (f a u ≡ ok b v)
    go (ok a u) e g = (a, u, e, g)
    go (threw x u) e g = cc

get_db_command-known : (w : World) → command_code w ≢ 0 → get_db_command w ≡ ok (command_code w) w
unfolding get_db_command
get_db_command-known w c = ground arith

pub packet-answered :
    (p : List ℕ) (w : World) (a : List ℕ) (answers : List (Option (List ℕ)))
    → w.answers ≡ some a ∷ answers
    → packet p w ≡ ok true (exchanged w p a answers)
unfolding packet
packet-answered p w a answers e = ground arith

pub request-answered :
    (build : ℕ → ℕ → DbPacket) (w : World) (a : List ℕ) (answers : List (Option (List ℕ)))
    → command_code w ≢ 0
    → w.answers ≡ some a ∷ answers
    → request build w
      ≡ ok
          (build w.socket (command_code w))
          (exchanged w (build w.socket (command_code w)).send a answers)
unfolding request
request-answered build w a answers c e =
    let p = build w.socket (command_code w) in
    bind-ok get_db_command _ w (command_code w) w (get_db_command-known w c)
    ∙ bind-ok (packet p.send) _ w true (exchanged w p.send a answers)
        (packet-answered p.send w a answers e)

pub check_answer-IsDone : (w : World) → IsDone w.response → check_answer w ≡ ok true w
unfolding check_answer command return_code DbPacket.return_code DbPacket.packet_command
check_answer-IsDone w d =
    let short : check_size w.response 5 ≡ true =
      check_size_mono w.response 5 7 (omega arith) d.whole in
    ground (arith, short, d.done, d.whole, d.zero_code)

answers-cases :
    (answers : List (Option (List ℕ)))
    → (answers ≡ [])
      ⊎ ((rest : List (Option (List ℕ))) × (answers ≡ none ∷ rest))
      ⊎ ((a : List ℕ) × (rest : List (Option (List ℕ))) × (answers ≡ some a ∷ rest))
answers-cases [] = inl refl
answers-cases (none ∷ rest) = inr (inl (rest, refl))
answers-cases (some a ∷ rest) = inr (inr (a, rest, refl))

pub get_db_command-returned :
    (w : World) (code : ℕ) (v : World)
    → get_db_command w ≡ ok code v
    → (command_code w ≢ 0) × (code ≡ command_code w) × (v ≡ w)
unfolding get_db_command
get_db_command-returned w code v h = ground arith

packet-returned :
    (p : List ℕ) (w : World) (b : Bool) (v : World)
    → packet p w ≡ ok b v
    → (a : List ℕ) × (answers : List (Option (List ℕ))) × (w.answers ≡ some a ∷ answers)
      × (v ≡ exchanged w p a answers)
unfolding packet
packet-returned p w b v h = elim (answers-cases w.answers) [
  | inl e ↦ ground arith
  | inr (inl (rest, e)) ↦ ground arith
  | inr (inr (a, rest, e)) ↦ (a, rest, e, ground arith)
]

pub check_answer-returned :
    (w : World) (b : Bool) (v : World) → check_answer w ≡ ok b v → IsDone w.response × (v ≡ w)
unfolding check_answer command return_code DbPacket.return_code DbPacket.packet_command
check_answer-returned w b v h = ground arith

pub pure-ok :
    {A : Type 0} (a b : A) (w v : World) → Path (Result A) (ok a w) (ok b v) → (b ≡ a) × (v ≡ w)
pure-ok a b w v h = ground arith

pub request-returned :
    (build : ℕ → ℕ → DbPacket) (w : World) (p : DbPacket) (v : World)
    → request build w ≡ ok p v
    → (a : List ℕ) × (answers : List (Option (List ℕ))) × (command_code w ≢ 0)
      × (w.answers ≡ some a ∷ answers)
      × (p ≡ build w.socket (command_code w))
      × (v ≡ exchanged w (build w.socket (command_code w)).send a answers)
unfolding request
request-returned build w p v h =
    let (code, w1, got, rest) = bind-returned get_db_command _ w p v h in
    let (known, is_code, same) = get_db_command-returned w code w1 got in
    let (u, w2, answered, ended) =
      bind-returned (packet (build w1.socket code).send) _ w1 p v rest in
    let (a, answers, e, after) = packet-returned (build w1.socket code).send w1 u w2 answered in
    let (is_p, is_v) = pure-ok (build w1.socket code) p w2 v ended in
    (
      a,
      answers,
      known,
      ap (λ (x : World). x.answers) (sym same) ∙ e,
      is_p ∙ (λ i. build (same i).socket (is_code i)),
      is_v ∙ (after ∙ (λ i. exchanged (same i) (build (same i).socket (is_code i)).send a answers)),
    )
