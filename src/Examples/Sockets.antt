-- ===== src/Examples/Sockets.antt =====
-- Examples on the socket layer.
use barry.Prelude.{
  arith, ℕ, ◌+◌, ◌≤◌, ◌≡◌, refl, true, false, none, some, List, [], ◌∷◌, inl, length, replicate,
  if◌then◌else◌,
}
use barry.Protocol.{
  is_sequence_packet, command_socket, command_sequence, socket_field, check_size, command_field,
  size_field,
}
use barry.Protocol.Command
use barry.Socket.Defragment.{Arrives, db_frag_send-receive_packets}
use barry.SocketZero.{World, ok, raw_send, check_device, bulk_write, raw_receive, read_device}
use barry.SocketZero.Requests.{send_open, field}
use barry.SocketZero.Settled.{open_socket-half_open}
use barry.SocketZero.Opening.{
  open_socket, start_open, answer_challenge, finish_open, await_sequence,
}
use barry.SocketZero.Costs.{passwords, world_of}
use barry.SocketZero.Tries.{may_try, open_socket-passwords}

-- A database packet of 1100 bytes.
abbrev long_packet : List ℕ
long_packet = 7 ∷ 0 ∷ 76 ∷ 4 ∷ 0x40 ∷ 0x41 ∷ replicate 1094 1

is_db_data : command_field long_packet ≡ Command.db_data
unfolding command_field
is_db_data = refl

db_frag_send-receive_packets_example : Arrives long_packet
db_frag_send-receive_packets_example =
    db_frag_send-receive_packets long_packet (omega arith) (omega arith) (inl is_db_data)

-- A device that asks for a password, and gives two tries.
abbrev world : World
world = record {
  zero = record {
    zero_socket_sequence = 0;
    sequence = 0;
    half_open = false;
    challenge_seed = 0;
    remaining_tries = 0;
    mode_sequence_packet_seen = false;
    pushback_buffer = none;
  };
  has_device = true;
  writes = true ∷ true ∷ [];
  incoming = some (0 ∷ 0 ∷ 16 ∷ 0 ∷ 0x0e ∷ 7 ∷ 0 ∷ 0 ∷ 2 ∷ 0 ∷ 0x14 ∷ 0 ∷ 1 ∷ 2 ∷ 3 ∷ 4 ∷ []) ∷ [];
  sent = [];
}

-- Any function can stand for SHA1 in an example.
abbrev no_hash : List ℕ → List ℕ
no_hash bytes = replicate 20 (length bytes)

open_socket-passwords_example :
    passwords (world_of (open_socket no_hash 7 (some (1 ∷ 2 ∷ [])) world)).sent
    ≤ passwords world.sent
      + (if may_try (world_of (start_open 7 world)) (some (1 ∷ 2 ∷ [])) then 1 else 0)
open_socket-passwords_example = open_socket-passwords no_hash 7 (some (1 ∷ 2 ∷ [])) world

-- A device that opens the socket at once.
abbrev ready : World
ready = record world {
  writes = true ∷ [];
  incoming =
      some (0 ∷ 0 ∷ 8 ∷ 0 ∷ 0x10 ∷ 7 ∷ 0 ∷ 0 ∷ [])
      ∷ some (0 ∷ 0 ∷ 12 ∷ 0 ∷ 0x13 ∷ 0 ∷ 0 ∷ 0 ∷ 1 ∷ 0 ∷ 0 ∷ 0 ∷ [])
      ∷ [];
}

abbrev opened : World
opened = record world {
  writes = [];
  incoming = [];
  sent = (0 ∷ 0 ∷ 8 ∷ 0 ∷ 0x0a ∷ 7 ∷ 0 ∷ 0 ∷ []) ∷ [];
}

opens : open_socket no_hash 7 none ready ≡ ok (record { socket = 7; close_flag = 0 }) opened
unfolding open_socket start_open send_open raw_send check_device bulk_write raw_receive read_device
    field answer_challenge finish_open await_sequence is_sequence_packet check_size size_field
    command_field command_socket command_sequence socket_field
opens = refl

open_socket-half_open_example : opened.zero.half_open ≡ false
open_socket-half_open_example =
    open_socket-half_open no_hash 7 none ready opened (record { socket = 7; close_flag = 0 }) opens
