-- ===== src/SocketZero/Settled.antt =====
-- The password mode that `Open` leaves.
use barry.Prelude.{
  ℕ, ◌≡◌, refl, subst, ◌∙◌, Bool, true, false, not, Option, none, some, List, [], ◌∷◌, ltb, ◌==◌,
  if◌then◌else◌, Bool-cases, Option-cases, inl, inr,
}
use barry.Protocol.{check_size, is_sequence_packet}
use barry.Protocol.Command
use barry.SocketZero.{
  Call, Error, Result, ok, threw, World, ◌>>=◌, pure, throw, get, read_device, raw_receive,
  pushback, no_starting_sequence, close_on_open, bad_opened, bad_size, bad_password,
}
use barry.SocketZero.Requests.{field, command, socket_response, socket_sequence, send_password_hash}
use barry.SocketZero.Opening.{
  min_password_tries, take_challenge, start_open, await_sequence, finish_open, attempt,
  flagged_attempt, answer_challenge, open_socket, Socket,
}
use barry.SocketZero.Costs.{world_of}

-- Where the call returns, no challenge is left to be answered.
abbrev OkOff {ℓ} : {A : Type ℓ} → Result A → Type 0
OkOff (ok a w) = w.zero.half_open ≡ false
OkOff (threw e w) = Unit {0}

-- The call leaves the password mode as it is.
record Stays {A : Type 0} (m : Call A) : Type 0 where
  same : (w : World) → (world_of (m w)).zero.half_open ≡ w.zero.half_open

last_off :
    {A B : Type 0} (r : Result A) (f : A → Call B)
    → ((a : A) (w : World) → OkOff (f a w))
    → OkOff {A = B} (elim r [ ok a w' ↦ f a w' | threw e w' ↦ threw e w' ])
last_off (ok a w) f g = g a w
last_off (threw e w) f g = tt

off_world : {A : Type 0} (r : Result A) → (world_of r).zero.half_open ≡ false → OkOff r
off_world (ok a w) h = h
off_world (threw e w) h = tt

off_then :
    {A B : Type 0} (r : Result A) (f : A → Call B)
    → OkOff r
    → ((a : A) → Stays (f a))
    → OkOff {A = B} (elim r [ ok a w' ↦ f a w' | threw e w' ↦ threw e w' ])
off_then (ok a w) f h g = off_world (f a w) ((g a).same w ∙ h)
off_then (threw e w) f h g = tt

then-Stays :
    {A B : Type 0} (b : Bool) (r : Result A) (f : A → Call B)
    → (world_of r).zero.half_open ≡ b
    → ((a : A) → Stays (f a))
    → (world_of {A = B} (elim r [ ok a w' ↦ f a w' | threw e w' ↦ threw e w' ])).zero.half_open ≡ b
then-Stays b (ok a w) f h g = (g a).same w ∙ h
then-Stays b (threw e w) f h g = h

bind-Stays :
    {A B : Type 0} (m : Call A) (f : A → Call B)
    → Stays m
    → ((a : A) → Stays (f a))
    → Stays (m >>= f)
bind-Stays m f h g = record { same = λ w. then-Stays w.zero.half_open (m w) f (h.same w) g }

if-Stays : {A : Type 0} (b : Bool) (m k : Call A) → Stays m → Stays k → Stays (if b then m else k)
if-Stays true m k h g = h
if-Stays false m k h g = g

pure-Stays : {A : Type 0} (a : A) → Stays (pure a)
pure-Stays a = record { same = λ w. refl }

throw-Stays : (A : Type 0) (e : Error) → Stays (throw {A = A} e)
throw-Stays A e = record { same = λ w. refl }

read_device-Stays : Stays read_device
unfolding read_device
read_device-Stays = record { same = λ w. go w w.incoming refl }
  where
    go :
        (w : World) (b : List (Option (List ℕ)))
        → w.incoming ≡ b
        → (world_of (read_device w)).zero.half_open ≡ w.zero.half_open
    go w [] e = simp (read_device, e) refl
    go w (none ∷ bs) e = simp (read_device, e) refl
    go w (some p ∷ bs) e = simp (read_device, e) refl

raw_receive-Stays : Stays raw_receive
unfolding raw_receive
raw_receive-Stays = record { same = go }
  where
    go : (w : World) → (world_of (raw_receive w)).zero.half_open ≡ w.zero.half_open
    go w = elim (Option-cases w.zero.pushback_buffer) [
      | inl e ↦ simp (raw_receive, e) (read_device-Stays.same w)
      | inr (p, e) ↦ simp (raw_receive, e) refl
    ]

pushback-Stays : (p : List ℕ) → Stays (pushback p)
unfolding pushback
pushback-Stays p = record { same = go }
  where
    go : (w : World) → (world_of (pushback p w)).zero.half_open ≡ w.zero.half_open
    go w = elim (Option-cases w.zero.pushback_buffer) [
      | inl e ↦ simp (pushback, e) refl
      | inr (q, e) ↦ simp (pushback, e) refl
    ]

field-Stays : (f : List ℕ → ℕ) (size : ℕ) (p : List ℕ) → Stays (field f size p)
unfolding field
field-Stays f size p = if-Stays (check_size p size) _ _ (pure-Stays (f p)) (throw-Stays ℕ bad_size)

await-Stays : Stays await_sequence
unfolding await_sequence
await-Stays =
    bind-Stays get _ (record { same = λ w. refl })
      (λ z. if-Stays z.mode_sequence_packet_seen _ _ (pure-Stays true) (
        bind-Stays raw_receive _ raw_receive-Stays (λ p.
          if-Stays (is_sequence_packet p) _ _ (pure-Stays true) (
            bind-Stays raw_receive _ raw_receive-Stays (λ q.
              if-Stays (is_sequence_packet q) _ _ (pushback-Stays p)
                (throw-Stays Bool no_starting_sequence))))))

finish_open-Stays : (s q : ℕ) (p : List ℕ) → Stays (finish_open s q p)
unfolding finish_open
finish_open-Stays s q p = bind-Stays (command p) _ (field-Stays _ _ p) (λ c.
    if-Stays (c == Command.close_socket) _ _ (throw-Stays Bool close_on_open) (
      if-Stays (not (c == Command.opened_socket)) _ _ (throw-Stays Bool bad_opened) (
        bind-Stays (socket_response p) _ (field-Stays _ _ p) (λ r.
          if-Stays (not (r == s)) _ _ (throw-Stays Bool bad_opened) (
            bind-Stays (socket_sequence p) _ (field-Stays _ _ p)
              (λ t. if-Stays (not (t == q)) _ _ (throw-Stays Bool bad_opened) await-Stays))))))

if_off :
    {A : Type 0} (b : Bool) (m k : Call A) (w : World)
    → OkOff (m w)
    → OkOff (k w)
    → OkOff ((if b then m else k) w)
if_off true m k w h g = h
if_off false m k w h g = g

never_ok :
    {A : Type 0} (B : Type 0) (r : Result A) (f : A → World → Error)
    → OkOff {A = B} (elim r [ ok a w' ↦ threw (f a w') w' | threw e w' ↦ threw e w' ])
never_ok B (ok a w) f = tt
never_ok B (threw e w) f = tt

module _ (sha1 : List ℕ → List ℕ) where
  attempt_off :
      (socket : ℕ) (password : List ℕ) (w : World) → OkOff (attempt sha1 socket password w)
  unfolding attempt
  attempt_off socket password w = last_off (send_password_hash sha1 socket password w) _ (λ p w₁.
      last_off (command p w₁) _ (λ c w₂.
        if_off (c == Command.password_failed) _ _ w₂
          (never_ok (List ℕ) (take_challenge p w₂)
            (λ kept w'. bad_password w'.zero.remaining_tries false))
          refl))

  answer_off :
      (socket : ℕ) (password : Option (List ℕ)) (p : List ℕ) (flag : ℕ) (w : World)
      → OkOff (answer_challenge sha1 socket password p flag w)
  unfolding answer_challenge flagged_attempt
  answer_off socket none p flag w = elim (Bool-cases w.zero.half_open) [
    | inl e ↦ simp (answer_challenge, e) tt
    | inr e ↦ simp (answer_challenge, e) refl
  ]
  answer_off socket (some q) p flag w = elim (Bool-cases w.zero.half_open) [
    | inl e ↦ elim (Bool-cases (ltb w.zero.remaining_tries min_password_tries)) [
      | inl few ↦ simp (answer_challenge, e, few) tt
      | inr more ↦
          simp (answer_challenge, e, more)
            (off_then (attempt sha1 socket q w) _ (attempt_off socket q w)
              (λ answer. pure-Stays (answer, w.zero.zero_socket_sequence)))
    ]
    | inr e ↦ simp (answer_challenge, e) refl
  ]

  open_off :
      (socket : ℕ) (password : Option (List ℕ)) (w : World)
      → OkOff (open_socket sha1 socket password w)
  unfolding open_socket
  open_off socket password w =
      let flag = w.zero.zero_socket_sequence in
      last_off (start_open socket w) _ (λ p w₁.
        off_then (answer_challenge sha1 socket password p flag w₁) _
          (answer_off socket password p flag w₁)
          (λ answer.
            bind-Stays (finish_open socket answer.1 answer.0) _
              (finish_open-Stays socket answer.1 answer.0)
              (λ _. pure-Stays (record { socket = socket; close_flag = flag }))))

  -- Where `Open` returns a socket, no password challenge is left to be answered.
  pub open_socket-half_open :
      (socket : ℕ) (password : Option (List ℕ)) (w w' : World) (s : Socket)
      → open_socket sha1 socket password w ≡ ok s w'
      → w'.zero.half_open ≡ false
  open_socket-half_open socket password w w' s e = subst OkOff e (open_off socket password w)
