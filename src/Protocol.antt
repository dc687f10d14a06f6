-- ===== src/Protocol.antt =====
-- The packet layer: src/protocol.cc, the field offsets and sizes of src/protostructs.h and the
-- command codes of src/protocol.h, and the accessors of src/packet.cc.
--
-- A packet is the list of its bytes. The fields are little endian, as the device sends them.
pub mod Command
pub mod Operation
pub mod Numbers
use Command
use barry.Prelude.{
  ℕ, ◌+◌, ◌*◌, ◌/◌, ◌%◌, ◌≡◌, Bool, true, false, not, ◌&&◌, ◌||◌, List, [], ◌∷◌, ltb, leb, ◌==◌,
  if◌then◌else◌, length, get_or, splice,
}

abbrev pub packet_socket_size : ℕ
packet_socket_size = 2

abbrev pub packet_header_size : ℕ
packet_header_size = 5

abbrev pub frag_header_size : ℕ
frag_header_size = 6

abbrev pub socket_packet_header_size : ℕ
socket_packet_header_size = 8

abbrev pub sequence_packet_size : ℕ
sequence_packet_size = 12

abbrev pub password_challenge_size : ℕ
password_challenge_size = 24

abbrev pub min_packet_size : ℕ
min_packet_size = 5

abbrev pub max_packet_size : ℕ
max_packet_size = 0x400

-- A byte, a uint16_t and a uint32_t at an offset. Every reader below tests the size first.
abbrev pub get_u8 : List ℕ → ℕ → ℕ
get_u8 p o = get_or p o 0

abbrev pub get_u16 : List ℕ → ℕ → ℕ
get_u16 p o = get_u8 p o + 256 * get_u8 p (o + 1)

abbrev pub get_u32 : List ℕ → ℕ → ℕ
get_u32 p o = get_u16 p o + 65536 * get_u16 p (o + 2)

abbrev pub u16_bytes : ℕ → List ℕ
u16_bytes n = n % 256 ∷ n / 256 % 256 ∷ []

abbrev pub u32_bytes : ℕ → List ℕ
u32_bytes n = n % 256 ∷ n / 256 % 256 ∷ n / 65536 % 256 ∷ n / 16777216 % 256 ∷ []

unfoldable pub socket_field : List ℕ → ℕ
socket_field p = get_u16 p 0

unfoldable pub size_field : List ℕ → ℕ
size_field p = get_u16 p 2

unfoldable pub command_field : List ℕ → ℕ
command_field p = get_u8 p 4

-- `u.sequence.socket` and `u.sequence.sequenceId`.
unfoldable pub sequence_socket : List ℕ → ℕ
sequence_socket p = get_u8 p 5

unfoldable pub sequence_id : List ℕ → ℕ
sequence_id p = get_u32 p 8

-- `u.socket.socket` and `u.socket.sequence`.
unfoldable pub command_socket : List ℕ → ℕ
command_socket p = get_u16 p 5

unfoldable pub command_sequence : List ℕ → ℕ
command_sequence p = get_u8 p 7

-- `u.socket.u.password.remaining_tries` and `u.socket.u.password.u.seed`.
unfoldable pub password_tries : List ℕ → ℕ
password_tries p = get_u8 p 8

unfoldable pub password_seed : List ℕ → ℕ
password_seed p = get_u32 p 12

-- `CheckSize` returns, or throws `BadSize`.
unfoldable pub check_size : List ℕ → ℕ → Bool
unfolding size_field
check_size packet requiredsize = not (
    (leb 4 (length packet)
      && not (size_field packet == length packet)
      && leb (length packet) 0xFFFF)
    || ltb (length packet) requiredsize)

-- `Protocol::GetSize`, after its own `CheckSize(packet, 4)`.
pub packet_size : List ℕ → ℕ
unfolding size_field
packet_size packet = if ltb 0xFFFF (length packet) then length packet else size_field packet

unfoldable pub is_sequence_packet : List ℕ → Bool
unfolding socket_field command_field
is_sequence_packet packet =
    length packet == sequence_packet_size
    && (socket_field packet == 0 && command_field packet == Command.sequence_handshake)
