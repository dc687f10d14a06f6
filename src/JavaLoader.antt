-- ===== src/JavaLoader.antt =====
-- The stream of an application to the device, src/m_javaloader.cc, with the builders of JLPacket
-- that it uses, src/packet.cc.
--
-- `answers` is what each later call of `m_socket->Packet` ends with: the command of the answer, or
-- `none` where the call or the reading of the command throws. `sent` is what the socket was given,
-- the command and the data apart; where the call throws, the data may not have gone out yet.
pub mod Stream
use barry.Prelude.{
  ℕ, zero, suc, ◌+◌, ◌-◌, ◌/◌, ◌%◌, ◌^◌, Bool, Option, none, some, List, [], ◌∷◌, ◌++◌, ltb, ◌==◌,
  if◌then◌else◌, length, take, drop,
}
use barry.Protocol.{u16_bytes}

abbrev pub set_cod_size_code : ℕ
set_cod_size_code = 0x67

abbrev pub send_data_code : ℕ
send_data_code = 0x68

abbrev pub ack : ℕ
ack = 0x64

abbrev pub not_enough_memory_code : ℕ
not_enough_memory_code = 0x6a

-- The send buffers of the packet, after the data was put in.
pub record JlPacket : Type 0 where
  pub cmd : List ℕ
  pub data_bytes : List ℕ

-- `SimpleCmd`, with the socket that the socket class puts in front.
unfoldable pub simple_cmd : ℕ → ℕ → ℕ → ℕ → List ℕ
simple_cmd socket cmd unknown size =
    u16_bytes socket ++ (u16_bytes 8 ++ (cmd % 256 ∷ unknown % 256 ∷ u16_bytes size))

-- `SimpleData`. Its size and the total are uint16_t: where the total wraps around, the copy leaves
-- the buffer.
unfoldable pub simple_data : ℕ → List ℕ → Option (List ℕ)
simple_data socket bytes =
    let size = length bytes % 2 ^ 16 in
    if ltb (2 ^ 16 - 1) (size + 4)
    then none
    else some (u16_bytes socket ++ (u16_bytes (size + 4) ++ take size bytes))

-- `BigEndianData` of a uint32_t.
abbrev pub big_endian : ℕ → List ℕ
big_endian n = n / 16777216 % 256 ∷ n / 65536 % 256 ∷ n / 256 % 256 ∷ n % 256 ∷ []

unfoldable pub set_cod_size : ℕ → ℕ → Option JlPacket
unfolding simple_cmd simple_data
set_cod_size socket size = elim (simple_data socket (big_endian size)) [
  | none ↦ none
  | some d ↦ some (record { cmd = simple_cmd socket set_cod_size_code 1 4; data_bytes = d })
]

unfoldable pub put_data : ℕ → List ℕ → Option JlPacket
unfolding simple_cmd simple_data
put_data socket bytes = elim (simple_data socket bytes) [
  | none ↦ none
  | some d ↦
      some (record { cmd = simple_cmd socket send_data_code 0 (length bytes); data_bytes = d })
]

pub record Loader : Type 0 where
  pub socket : ℕ
  pub answers : List (Option ℕ)
  pub sent : List (List ℕ)

pub data Thrown : Type 0 where
  read_failed not_enough_memory socket_failed overrun : Thrown
  -- `ThrowJLError`, with the command.
  jl_error : ℕ → Thrown

-- How a call ends: it returns, with what is left of the input, or throws.
pub data Streamed : Type 0 where
  streamed : List ℕ → Loader → Streamed
  failed : Thrown → Loader → Streamed

pub data Answered : Type 0 where
  answered : ℕ → Loader → Answered
  unanswered : Loader → Answered

-- `SocketBase::Packet` of a packet that has data.
unfoldable pub packet : JlPacket → Loader → Answered
packet p w =
    let sent = w.sent ++ (p.cmd ∷ p.data_bytes ∷ []) in
    elim w.answers [
      | [] ↦ unanswered (record w { sent = sent })
      | answer ∷ answers ↦ elim answer [
        | none ↦ unanswered (record w { sent = sent; answers = answers })
        | some code ↦ answered code (record w { sent = sent; answers = answers })
      ]
    ]

-- `MAX_PACKET_DATA_SIZE - SB_JLPACKET_HEADER_SIZE`.
abbrev pub max_data_size : ℕ
max_data_size = 0x7FC - 4

abbrev pub piece_size : ℕ → ℕ
piece_size remaining = if ltb max_data_size remaining then max_data_size else remaining

-- What the loop makes of the answer to a piece: an exception, or none.
unfoldable pub refusal : ℕ → Option Thrown
refusal code =
    if code == not_enough_memory_code
    then some not_enough_memory
    else if code == ack
    then none
    else some (jl_error code)

-- One round of the loop of `SendStream`, up to `remaining -= size`.
unfoldable pub send_piece : ℕ → List ℕ → Loader → Streamed
unfolding put_data packet refusal
send_piece size input w =
    if ltb (length input) size
    then failed read_failed w
    else elim (put_data w.socket (take size input)) [
      | none ↦ failed overrun w
      | some p ↦ elim (packet p w) [
        | unanswered v ↦ failed socket_failed v
        | answered code v ↦ elim (refusal code) [
          | some t ↦ failed t v
          | none ↦ streamed (drop size input) v
        ]
      ]
    ]

-- The loop of `SendStream`. `none`: the fuel ran out.
unfoldable pub send_loop : ℕ → ℕ → List ℕ → Loader → Option Streamed
send_loop fuel zero input w = some (streamed input w)
send_loop zero (suc n) input w = none
send_loop (suc fuel) (suc n) input w =
    elim (send_piece (piece_size (suc n)) input w) as (λ s. Option Streamed) [
      | failed t v ↦ some (failed t v)
      | streamed rest v ↦ send_loop fuel (suc n - piece_size (suc n)) rest v
    ]

-- `SendStream`. Each round takes a byte at least, so the fuel is enough.
unfoldable pub send_stream : ℕ → List ℕ → Loader → Option Streamed
unfolding set_cod_size packet
send_stream module_size input w = elim (set_cod_size w.socket module_size) [
  | none ↦ some (failed overrun w)
  | some p ↦ elim (packet p w) [
    | unanswered v ↦ some (failed socket_failed v)
    | answered code v ↦
        if code == ack
        then send_loop module_size module_size input v
        else some (failed (jl_error code) v)
  ]
]
