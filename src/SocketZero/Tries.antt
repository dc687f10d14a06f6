-- ===== src/SocketZero/Tries.antt =====
-- How often `Open` spends a password try.
use barry.Prelude.{
  ℕ, ◌+◌, ◌≤◌, Bool, false, not, Option, none, some, List, ltb, ◌==◌, if◌then◌else◌, arith,
  Bool-cases, inl, inr,
}
use barry.Protocol.{command_field, is_sequence_packet}
use barry.Protocol.Command
use barry.SocketZero.{
  Result, ok, threw, World, ◌>>=◌, pure, get, set, raw_send, raw_receive, check_sequence,
  bad_password,
}
use barry.SocketZero.Requests.{password_packet, send_password_hash, see_sequence_packet, command}
use barry.SocketZero.Opening.{
  min_password_tries, take_challenge, start_open, finish_open, attempt, flagged_attempt,
  answer_challenge, open_socket, Socket,
}
use barry.SocketZero.Costs.{
  passwords, world_of, Spends, then-Spends, quiet_bind, bind_quiet, if_Spends, none_spent,
  get-Spends, set-Spends, throw-Spends, raw_send-Spends, raw_receive-Spends, check_sequence-Spends,
  see-Spends, field-Spends, take_challenge-Spends, start_open-Spends, finish_open-Spends,
}

-- Whether a password may be sent: the device waits for one, there is one, and tries are left.
abbrev pub may_try : World → Option (List ℕ) → Bool
may_try w none = false
may_try w (some p) =
    if w.zero.half_open then not (ltb w.zero.remaining_tries min_password_tries) else false

module _ (sha1 : List ℕ → List ℕ) where
  send_password-Spends :
      (socket : ℕ) (password : List ℕ) → Spends 1 (send_password_hash sha1 socket password)
  unfolding send_password_hash command_field
  send_password-Spends socket password = quiet_bind 1 get _ get-Spends (λ z.
      bind_quiet 1 (raw_send _) _
        (raw_send-Spends
          (password_packet sha1 socket z.zero_socket_sequence z.challenge_seed password))
        (λ _. quiet_bind 0 raw_receive _ raw_receive-Spends (λ p.
          if_Spends 0 (is_sequence_packet p) _ _
            (quiet_bind 0 see_sequence_packet _ see-Spends (λ _.
              quiet_bind 0 (check_sequence 0 p) _ (check_sequence-Spends 0 p)
                (λ _. raw_receive-Spends)))
            (none_spent p))))

  attempt-Spends : (socket : ℕ) (password : List ℕ) → Spends 1 (attempt sha1 socket password)
  unfolding attempt
  attempt-Spends socket password =
      bind_quiet 1 (send_password_hash sha1 socket password) _
        (send_password-Spends socket password)
        (λ p. quiet_bind 0 (command p) _ (field-Spends _ _ p) (λ c.
          if_Spends 0 (c == Command.password_failed) _ _
            (quiet_bind 0 (take_challenge p) _ (take_challenge-Spends p) (λ _.
              quiet_bind 0 get _ get-Spends
                (λ z. throw-Spends (List ℕ) (bad_password z.remaining_tries false))))
            (quiet_bind 0 get _ get-Spends (λ z.
              quiet_bind 0 (set _) _ (set-Spends (record z { half_open = false }))
                (λ _. none_spent p)))))

  flagged-Spends :
      (socket : ℕ) (password : List ℕ) → Spends 1 (flagged_attempt sha1 socket password)
  unfolding flagged_attempt
  flagged-Spends socket password = quiet_bind 1 get _ get-Spends (λ z.
      bind_quiet 1 (attempt sha1 socket password) _ (attempt-Spends socket password)
        (λ p. none_spent (p, z.zero_socket_sequence)))

  answer_spends :
      (socket : ℕ) (password : Option (List ℕ)) (p : List ℕ) (flag : ℕ) (w : World)
      → passwords (world_of (answer_challenge sha1 socket password p flag w)).sent
        ≤ passwords w.sent + (if may_try w password then 1 else 0)
  unfolding answer_challenge
  answer_spends socket none p flag w = elim (Bool-cases w.zero.half_open) [
    | inl e ↦ rw (answer_challenge, e) (omega arith)
    | inr e ↦ rw (answer_challenge, e) (omega arith)
  ]
  answer_spends socket (some q) p flag w = elim (Bool-cases w.zero.half_open) [
    | inl e ↦ elim (Bool-cases (ltb w.zero.remaining_tries min_password_tries)) [
      | inl few ↦ rw (answer_challenge, e, few) (omega arith)
      | inr more ↦ simp (answer_challenge, e, more) ((flagged-Spends socket q).bound w)
    ]
    | inr e ↦ rw (answer_challenge, e) (omega arith)
  ]

  after_start :
      (socket flag : ℕ) (password : Option (List ℕ)) (w : World) (r : Result (List ℕ))
      → passwords (world_of r).sent ≤ passwords w.sent + 0
      → passwords
          (world_of {A = Socket} (elim r [
            | ok p w' ↦
                (answer_challenge sha1 socket password p flag >>= (λ answer.
                    finish_open socket answer.1 answer.0 >>= (λ opened.
                      pure {A = Socket} (record { socket = socket; close_flag = flag }))))
                  w'
            | threw e w' ↦ threw e w'
          ])).sent
        ≤ passwords w.sent + (if may_try (world_of r) password then 1 else 0)
  after_start socket flag password w (ok p w') h =
      let n : ℕ = if may_try w' password then 1 else 0 in
      let rest =
        then-Spends {B = Socket} n 0 n w' (answer_challenge sha1 socket password p flag w') _
          (omega arith) (answer_spends socket password p flag w')
          (λ answer.
            quiet_bind 0 (finish_open socket answer.1 answer.0) _
              (finish_open-Spends socket answer.1 answer.0)
              (λ _. none_spent (record { socket = socket; close_flag = flag }))) in
      omega (arith, h, rest)
  after_start socket flag password w (threw e w') h = omega arith

  -- `Open` sends at most one password, and none where the caller gives none, where the device asked
  -- for none, or where fewer than three tries are left once the device has answered the request to
  -- open.
  pub open_socket-passwords :
      (socket : ℕ) (password : Option (List ℕ)) (w : World)
      → passwords (world_of (open_socket sha1 socket password w)).sent
        ≤ passwords w.sent + (if may_try (world_of (start_open socket w)) password then 1 else 0)
  unfolding open_socket
  open_socket-passwords socket password w =
      after_start socket w.zero.zero_socket_sequence password w (start_open socket w)
        ((start_open-Spends socket).bound w)
