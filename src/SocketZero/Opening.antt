-- ===== src/SocketZero/Opening.antt =====
-- `SocketZero::Open` of src/socket.cc. The new Socket object is its number and its close flag; its
-- registration with the router is not part of the call here.
use barry.Prelude.{
  ℕ, Bool, true, false, not, Option, none, some, List, [], ltb, ◌==◌, if◌then◌else◌,
}
use barry.Protocol.{is_sequence_packet}
use barry.Protocol.Command
use barry.SocketZero.{
  Call, bad_password, close_on_open, bad_opened, no_starting_sequence, ◌>>=◌, pure, throw, get, set,
  raw_receive, pushback,
}
use barry.SocketZero.Requests.{
  send_open, send_password_hash, command, challenge_seed, remaining_tries, socket_response,
  socket_sequence,
}

pub record Socket : Type 0 where
  pub socket : ℕ
  pub close_flag : ℕ

-- `BARRY_MIN_PASSWORD_TRIES`.
abbrev pub min_password_tries : ℕ
min_password_tries = 3

-- The three assignments after a challenge or a failed password.
unfoldable pub take_challenge : List ℕ → Call (List ℕ)
take_challenge receive = do
  z ← get
  half ← set (record z { half_open = true })
  seed ← challenge_seed receive
  z' ← get
  seeded ← set (record z' { challenge_seed = seed })
  tries ← remaining_tries receive
  z'' ← get
  done ← set (record z'' { remaining_tries = tries })
  pure receive

-- The first part: without a challenge that is still to be answered, ask to open. The answer is
-- what `receive` holds then.
unfoldable pub start_open : ℕ → Call (List ℕ)
start_open socket = do
  z ← get
  if z.half_open then pure [] else (do
    fresh ← set (record z { remaining_tries = 0; mode_sequence_packet_seen = false })
    receive ← send_open socket
    c ← command receive
    if c == Command.password_challenge then take_challenge receive else pure receive)

-- The wait for the mode's starting sequence packet.
unfoldable pub await_sequence : Call Bool
await_sequence = do
  z ← get
  if z.mode_sequence_packet_seen then pure true else (do
    sequence ← raw_receive
    if is_sequence_packet sequence then pure true else (do
      late_sequence ← raw_receive
      if is_sequence_packet late_sequence then pushback sequence else throw no_starting_sequence))

-- The last part: the answer must be that the socket is open.
unfoldable pub finish_open : ℕ → ℕ → List ℕ → Call Bool
finish_open socket close_flag receive = do
  c ← command receive
  if c == Command.close_socket
      then throw close_on_open
      else if not (c == Command.opened_socket)
      then throw bad_opened
      else (do
        s ← socket_response receive
        if not (s == socket) then throw bad_opened else (do
          q ← socket_sequence receive
          if not (q == close_flag) then throw bad_opened else await_sequence))

module _ (sha1 : List ℕ → List ℕ) where
  -- One attempt with a password.
  unfoldable pub attempt : ℕ → List ℕ → Call (List ℕ)
  attempt socket password = do
    answer ← send_password_hash sha1 socket password
    c ← command answer
    if c == Command.password_failed
        then (do
          kept ← take_challenge answer
          z ← get
          throw (bad_password z.remaining_tries false))
        else (do z ← get; done ← set (record z { half_open = false }); pure answer)

  -- An attempt, and the close flag that is saved before it.
  unfoldable pub flagged_attempt : ℕ → List ℕ → Call (List ℕ × ℕ)
  flagged_attempt socket password = do
    z ← get
    answer ← attempt socket password
    pure (answer, z.zero_socket_sequence)

  -- The middle part, in half open mode: the password is sent if there is one and tries are left.
  -- The result is what `receive` and `closeFlag` hold then.
  unfoldable pub answer_challenge : ℕ → Option (List ℕ) → List ℕ → ℕ → Call (List ℕ × ℕ)
  answer_challenge socket password receive close_flag = do
    z ← get
    if not z.half_open then pure (receive, close_flag) else elim password [
      | none ↦ throw (bad_password z.remaining_tries false)
      | some p ↦
          if ltb z.remaining_tries min_password_tries
          then throw (bad_password z.remaining_tries true)
          else flagged_attempt socket p
    ]

  -- The Socket object keeps the first close flag, the check of the answer takes the last one.
  unfoldable pub open_socket : ℕ → Option (List ℕ) → Call Socket
  open_socket socket password = do
    z ← get
    receive ← start_open socket
    answer ← answer_challenge socket password receive z.zero_socket_sequence
    opened ← finish_open socket answer.1 answer.0
    pure (record { socket = socket; close_flag = z.zero_socket_sequence })
