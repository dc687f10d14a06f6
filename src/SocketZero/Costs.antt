-- ===== src/SocketZero/Costs.antt =====
-- What the parts of `Open` that do not answer a challenge send: no password.
use barry.Prelude.{
  ℕ, ◌+◌, ◌%◌, ◌^◌, ◌≤◌, ◌≡◌, refl, Bool, true, false, not, Option, none, some, List, [], ◌∷◌, ◌++◌,
  ltb, ◌==◌, if◌then◌else◌, length, arith, Bool-cases, Option-cases, inl, inr,
}
use barry.Protocol.{
  command_field, u16_bytes, check_size, is_sequence_packet, sequence_packet_size, sequence_id,
}
use barry.Protocol.Command
use barry.SocketZero.{
  Call, Error, Result, ok, threw, World, Zero, ◌>>=◌, pure, throw, get, set, bulk_write,
  read_device, check_device, raw_send, raw_receive, pushback, check_sequence, expected_sequence,
  multiple_pushbacks, invalid_sequence_packet, out_of_sequence, no_starting_sequence, bad_size,
  bad_opened, close_on_open,
}
use barry.SocketZero.Requests.{
  open_packet, send_open, see_sequence_packet, field, command, challenge_seed, remaining_tries,
  socket_response, socket_sequence,
}
use barry.SocketZero.Opening.{take_challenge, start_open, await_sequence, finish_open}

-- How many of the packets send a password.
abbrev pub passwords : List (List ℕ) → ℕ
passwords [] = 0
passwords (p ∷ ps) = (if command_field p == Command.password then 1 else 0) + passwords ps

passwords-append : (ps qs : List (List ℕ)) → passwords (ps ++ qs) ≡ passwords ps + passwords qs
passwords-append [] qs = omega arith
passwords-append (p ∷ ps) qs = omega (arith, passwords-append ps qs)

abbrev pub world_of {ℓ} : {A : Type ℓ} → Result A → World
world_of (ok a w) = w
world_of (threw e w) = w

-- The call sends at most `n` passwords, whatever the world.
pub record Spends {A : Type 0} (n : ℕ) (m : Call A) : Type 0 where
  pub bound : (w : World) → passwords (world_of (m w)).sent ≤ passwords w.sent + n

pub then-Spends :
    {A B : Type 0} (n k t : ℕ) (w : World) (r : Result A) (f : A → Call B)
    → n + k ≤ t
    → passwords (world_of r).sent ≤ passwords w.sent + n
    → ((a : A) → Spends k (f a))
    → passwords (world_of (elim r [ ok a w' ↦ f a w' | threw e w' ↦ threw e w' ])).sent
      ≤ passwords w.sent + t
then-Spends n k t w (ok a w') f l h g = omega (arith, (g a).bound w')
then-Spends n k t w (threw e w') f l h g = omega arith

pub quiet_bind :
    {A B : Type 0} (n : ℕ) (m : Call A) (f : A → Call B)
    → Spends 0 m
    → ((a : A) → Spends n (f a))
    → Spends n (m >>= f)
quiet_bind n m f h g = record {
  bound = λ w. then-Spends 0 n n w (m w) f (omega arith) (h.bound w) g;
}

pub bind_quiet :
    {A B : Type 0} (n : ℕ) (m : Call A) (f : A → Call B)
    → Spends n m
    → ((a : A) → Spends 0 (f a))
    → Spends n (m >>= f)
bind_quiet n m f h g = record {
  bound = λ w. then-Spends n 0 n w (m w) f (omega arith) (h.bound w) g;
}

pub if_Spends :
    {A : Type 0} (n : ℕ) (b : Bool) (m k : Call A)
    → Spends n m
    → Spends n k
    → Spends n (if b then m else k)
if_Spends n true m k h g = h
if_Spends n false m k h g = g

pub none_spent : {A : Type 0} (a : A) → Spends 0 (pure a)
none_spent a = record { bound = λ w. omega arith }

pub get-Spends : Spends 0 get
get-Spends = record { bound = λ w. omega arith }

pub set-Spends : (z : Zero) → Spends 0 (set z)
set-Spends z = record { bound = λ w. omega arith }

pub throw-Spends : (A : Type 0) (e : Error) → Spends 0 (throw {A = A} e)
throw-Spends A e = record { bound = λ w. omega arith }

bulk_write-Spends :
    (p : List ℕ) → Spends (if command_field p == Command.password then 1 else 0) (bulk_write p)
unfolding bulk_write
bulk_write-Spends p = record { bound = λ w. go w w.writes refl }
  where
    go :
        (w : World) (b : List Bool)
        → w.writes ≡ b
        → passwords (world_of (bulk_write p w)).sent
          ≤ passwords w.sent + (if command_field p == Command.password then 1 else 0)
    go w [] e = rw (bulk_write, e) (omega arith)
    go w (true ∷ bs) e = rw (bulk_write, e) (omega (arith, passwords-append w.sent (p ∷ [])))
    go w (false ∷ bs) e = rw (bulk_write, e) (omega arith)

read_device-Spends : Spends 0 read_device
unfolding read_device
read_device-Spends = record { bound = λ w. go w w.incoming refl }
  where
    go :
        (w : World) (b : List (Option (List ℕ)))
        → w.incoming ≡ b
        → passwords (world_of (read_device w)).sent ≤ passwords w.sent + 0
    go w [] e = rw (read_device, e) (omega arith)
    go w (none ∷ bs) e = rw (read_device, e) (omega arith)
    go w (some p ∷ bs) e = rw (read_device, e) (omega arith)

check_device-Spends : Spends 0 check_device
unfolding check_device
check_device-Spends = record {
  bound = λ w. elim (Bool-cases w.has_device) [
    | inl e ↦ rw (check_device, e) (omega arith)
    | inr e ↦ rw (check_device, e) (omega arith)
  ];
}

abbrev pub cost : List ℕ → ℕ
cost p = if command_field p == Command.password then 1 else 0

pub raw_send-Spends : (p : List ℕ) → Spends (cost p) (raw_send p)
unfolding raw_send command_field
raw_send-Spends p = quiet_bind (cost p) check_device _ check_device-Spends (λ _.
    quiet_bind (cost p) _ _
      (if_Spends 0 (length p % 0x40 == 0) (bulk_write (u16_bytes (length p) ++ (0 ∷ [])))
        (pure true) (bulk_write-Spends (u16_bytes (length p) ++ (0 ∷ []))) (none_spent true))
      (λ _. bulk_write-Spends p))

pub raw_receive-Spends : Spends 0 raw_receive
unfolding raw_receive
raw_receive-Spends = quiet_bind 0 get _ get-Spends go
  where
    go :
        (z : Zero)
        → Spends {A = List ℕ} 0 (elim z.pushback_buffer [
          | some p ↦ set (record z { pushback_buffer = none }) >>= (λ done. pure p)
          | none ↦ read_device
        ])
    go z = elim (Option-cases z.pushback_buffer) [
      | inl e ↦ rw e read_device-Spends
      | inr (p, e) ↦ rw e (quiet_bind 0 (set _) _ (set-Spends _) (λ _. none_spent p))
    ]

pushback-Spends : (p : List ℕ) → Spends 0 (pushback p)
unfolding pushback
pushback-Spends p = quiet_bind 0 get _ get-Spends go
  where
    go :
        (z : Zero)
        → Spends {A = Bool} 0 (elim z.pushback_buffer [
          | some q ↦ throw multiple_pushbacks
          | none ↦ set (record z { pushback_buffer = some p })
        ])
    go z = elim (Option-cases z.pushback_buffer) [
      | inl e ↦ rw e (set-Spends _)
      | inr (q, e) ↦ rw e (throw-Spends Bool multiple_pushbacks)
    ]

pub check_sequence-Spends : (s : ℕ) (p : List ℕ) → Spends 0 (check_sequence s p)
unfolding check_sequence
check_sequence-Spends s p =
    if_Spends 0 (ltb (length p) sequence_packet_size) _ _
      (throw-Spends Bool invalid_sequence_packet) (quiet_bind 0 get _ get-Spends go)
  where
    go :
        (z : Zero)
        → Spends {A = Bool} 0 (elim (expected_sequence s z.sequence (sequence_id p)) [
          | none ↦ throw out_of_sequence
          | some n ↦ set (record z { sequence = (n + 1) % 2 ^ 32 })
        ])
    go z = elim (Option-cases (expected_sequence s z.sequence (sequence_id p))) [
      | inl e ↦ rw e (throw-Spends Bool out_of_sequence)
      | inr (n, e) ↦ rw e (set-Spends _)
    ]

pub see-Spends : Spends 0 see_sequence_packet
unfolding see_sequence_packet
see-Spends = quiet_bind 0 get _ get-Spends (λ z. set-Spends _)

pub field-Spends : (f : List ℕ → ℕ) (size : ℕ) (p : List ℕ) → Spends 0 (field f size p)
unfolding field
field-Spends f size p =
    if_Spends 0 (check_size p size) _ _ (none_spent (f p)) (throw-Spends ℕ bad_size)

send_open-Spends : (socket : ℕ) → Spends 0 (send_open socket)
unfolding send_open command_field
send_open-Spends socket = quiet_bind 0 get _ get-Spends (λ z.
    quiet_bind 0 (raw_send _) _ (raw_send-Spends (open_packet socket z.zero_socket_sequence)) (λ _.
      quiet_bind 0 raw_receive _ raw_receive-Spends (λ p.
        if_Spends 0 (is_sequence_packet p) _ _
          (quiet_bind 0 see_sequence_packet _ see-Spends (λ _. raw_receive-Spends))
          (none_spent p))))

pub take_challenge-Spends : (p : List ℕ) → Spends 0 (take_challenge p)
unfolding take_challenge
take_challenge-Spends p = quiet_bind 0 get _ get-Spends (λ z.
    quiet_bind 0 (set _) _ (set-Spends _) (λ _.
      quiet_bind 0 (challenge_seed p) _ (field-Spends _ _ p) (λ seed.
        quiet_bind 0 get _ get-Spends (λ z'.
          quiet_bind 0 (set _) _ (set-Spends (record z' { challenge_seed = seed })) (λ _.
            quiet_bind 0 (remaining_tries p) _ (field-Spends _ _ p) (λ tries.
              quiet_bind 0 get _ get-Spends (λ z''.
                quiet_bind 0 (set _) _ (set-Spends (record z'' { remaining_tries = tries }))
                  (λ _. none_spent p))))))))

pub start_open-Spends : (socket : ℕ) → Spends 0 (start_open socket)
unfolding start_open
start_open-Spends socket = quiet_bind 0 get _ get-Spends (λ z.
    if_Spends 0 z.half_open _ _ (none_spent []) (
      quiet_bind 0 (set _) _ (set-Spends _) (λ _.
        quiet_bind 0 (send_open socket) _ (send_open-Spends socket) (λ p.
          quiet_bind 0 (command p) _ (field-Spends _ _ p) (λ c.
            if_Spends 0 (c == Command.password_challenge) _ _ (take_challenge-Spends p)
              (none_spent p))))))

await-Spends : Spends 0 await_sequence
unfolding await_sequence
await-Spends = quiet_bind 0 get _ get-Spends (λ z.
    if_Spends 0 z.mode_sequence_packet_seen _ _ (none_spent true) (
      quiet_bind 0 raw_receive _ raw_receive-Spends (λ p.
        if_Spends 0 (is_sequence_packet p) _ _ (none_spent true) (
          quiet_bind 0 raw_receive _ raw_receive-Spends (λ q.
            if_Spends 0 (is_sequence_packet q) _ _ (pushback-Spends p)
              (throw-Spends Bool no_starting_sequence))))))

pub finish_open-Spends : (s q : ℕ) (p : List ℕ) → Spends 0 (finish_open s q p)
unfolding finish_open
finish_open-Spends s q p = quiet_bind 0 (command p) _ (field-Spends _ _ p) (λ c.
    if_Spends 0 (c == Command.close_socket) _ _ (throw-Spends Bool close_on_open) (
      if_Spends 0 (not (c == Command.opened_socket)) _ _ (throw-Spends Bool bad_opened) (
        quiet_bind 0 (socket_response p) _ (field-Spends _ _ p) (λ r.
          if_Spends 0 (not (r == s)) _ _ (throw-Spends Bool bad_opened) (
            quiet_bind 0 (socket_sequence p) _ (field-Spends _ _ p)
              (λ t. if_Spends 0 (not (t == q)) _ _ (throw-Spends Bool bad_opened) await-Spends))))))
