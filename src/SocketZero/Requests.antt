-- ===== src/SocketZero/Requests.antt =====
-- The requests of src/socket.cc on socket zero: `SendOpen` and `SendPasswordHash`, and the
-- accessors of `ZeroPacket` in src/packet.cc.
use barry.Prelude.{ℕ, ◌+◌, Bool, true, List, [], ◌∷◌, ◌++◌, if◌then◌else◌}
use barry.Protocol.{
  u16_bytes, u32_bytes, packet_header_size, socket_packet_header_size, password_challenge_size,
  check_size, is_sequence_packet, command_field, command_socket, command_sequence, password_tries,
  password_seed,
}
use barry.Protocol.Command
use barry.SocketZero.{
  Call, bad_size, ◌>>=◌, pure, throw, get, set, raw_send, raw_receive, check_sequence,
}

-- The header of a packet on socket zero.
abbrev pub zero_header : ℕ → ℕ → ℕ → ℕ → List ℕ
zero_header size command socket sequence =
    0 ∷ 0 ∷ (u16_bytes size ++ (command ∷ (u16_bytes socket ++ (sequence ∷ []))))

abbrev pub open_packet : ℕ → ℕ → List ℕ
open_packet socket sequence =
    zero_header socket_packet_header_size Command.open_socket socket sequence

unfoldable pub see_sequence_packet : Call Bool
see_sequence_packet = do z ← get; set (record z { mode_sequence_packet_seen = true })

unfoldable pub send_open : ℕ → Call (List ℕ)
send_open socket = do
  z ← get
  done ← raw_send (open_packet socket z.zero_socket_sequence)
  receive ← raw_receive
  if is_sequence_packet receive then (do seen ← see_sequence_packet; raw_receive) else pure receive

-- A field of the answer, after its `CheckSize`.
unfoldable pub field : (List ℕ → ℕ) → ℕ → List ℕ → Call ℕ
field f size receive = if check_size receive size then pure (f receive) else throw bad_size

abbrev pub command : List ℕ → Call ℕ
command receive = field command_field packet_header_size receive

abbrev pub challenge_seed : List ℕ → Call ℕ
challenge_seed receive = field password_seed (socket_packet_header_size + 8) receive

abbrev pub remaining_tries : List ℕ → Call ℕ
remaining_tries receive = field password_tries (socket_packet_header_size + 4) receive

abbrev pub socket_response : List ℕ → Call ℕ
socket_response receive = field command_socket socket_packet_header_size receive

abbrev pub socket_sequence : List ℕ → Call ℕ
socket_sequence receive = field command_sequence socket_packet_header_size receive

-- `SHA1` of sha1.h, which fills `SHA_DIGEST_LENGTH` bytes.
module _ (sha1 : List ℕ → List ℕ) where
  abbrev pub password_digest : ℕ → List ℕ → List ℕ
  password_digest seed password = sha1 (u32_bytes seed ++ sha1 password)

  abbrev pub password_packet : ℕ → ℕ → ℕ → List ℕ → List ℕ
  password_packet socket sequence seed password =
      zero_header (socket_packet_header_size + password_challenge_size) Command.password socket
        sequence
      ++ (0 ∷ 0 ∷ (u16_bytes 0x14 ++ password_digest seed password))

  unfoldable pub send_password_hash : ℕ → List ℕ → Call (List ℕ)
  send_password_hash socket password = do
    z ← get
    done ← raw_send (password_packet socket z.zero_socket_sequence z.challenge_seed password)
    receive ← raw_receive
    if is_sequence_packet receive
        then (do seen ← see_sequence_packet; checked ← check_sequence 0 receive; raw_receive)
        else pure receive
