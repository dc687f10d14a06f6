-- ===== src/Socket/Transfer.antt =====
-- `SocketBase::Packet`: the loop that reads the answer to a packet, and joins its fragments.
--
-- `input` is the packet in the input buffer and `incoming` are those that later calls of `Receive`
-- put there. Until a fragment was seen the input buffer is `receive` itself.
use barry.Prelude.{
  ℕ, ◌+◌, Bool, true, false, not, none, some, List, [], ◌∷◌, ◌==◌, if◌then◌else◌, length,
}
use barry.Protocol.{packet_header_size, check_size, command_field}
use barry.Protocol.Command
use barry.Socket.Fragment.{append_fragment}

pub data Received : Type 0 where
  -- The call returns, with these contents in `receive`.
  finished : List ℕ → Received
  -- The exceptions.
  bad_size unhandled_packet ten_blanks : Received
  -- A copy left its buffer.
  faulted : Received
  -- The answer is not complete, and `Receive` waits.
  waiting : Received

-- What the loop keeps: the joined fragments, whether there are any, and the blank packets in a row.
pub record Progress : Type 0 where
  pub receive : List ℕ
  pub frag : Bool
  pub blank_count : ℕ

pub data Round : Type 0 where
  ends : Received → Round
  goes_on : Progress → Round

-- `SB_COMMAND_DB_DATA` and `SB_COMMAND_DB_FRAGMENTED`.
unfoldable pub on_data : Progress → List ℕ → Round
on_data s input =
    if s.frag
    then elim (append_fragment s.receive input) [
      | none ↦ ends faulted
      | some whole ↦ ends (finished whole)
    ]
    else ends (finished input)

unfoldable pub on_fragment : Progress → List ℕ → Round
on_fragment s input =
    if s.frag
    then elim (append_fragment s.receive input) [
      | none ↦ ends faulted
      | some whole ↦ goes_on (record s { receive = whole; frag = true; blank_count = 0 })
    ]
    else goes_on (record s { receive = input; frag = true; blank_count = 0 })

unfoldable pub on_blank : Progress → Round
on_blank s =
    if s.blank_count + 1 == 10
    then ends ten_blanks
    else goes_on (record s { blank_count = s.blank_count + 1 })

-- `SB_COMMAND_SEQUENCE_HANDSHAKE`: `CheckSequence` of `SocketBase`, which checks nothing.
unfoldable pub on_sequence : Progress → Round
on_sequence s = goes_on (record s { blank_count = 0 })

-- The body of the loop up to the next read.
unfoldable pub round : Progress → List ℕ → Round
unfolding on_data on_fragment on_blank on_sequence
round s input =
    if length input == 0
    then on_blank s
    else if not (check_size input packet_header_size)
    then ends bad_size
    else let command = command_field input in
      if command == Command.sequence_handshake
      then on_sequence s
      else if command == Command.db_data
      then on_data s input
      else if command == Command.db_fragmented
      then on_fragment s input
      else if command == Command.db_done
      then ends (finished (if s.frag then s.receive else input))
      else ends unhandled_packet

-- The loop over the packets that arrive.
unfoldable pub packet_loop : Progress → List ℕ → List (List ℕ) → Received
packet_loop s input [] = elim (round s input) [ ends result ↦ result | goes_on s' ↦ waiting ]
packet_loop s input (next ∷ incoming) = elim (round s input) [
  | ends result ↦ result
  | goes_on s' ↦ packet_loop s' next incoming
]

-- After `DBFragSend`: `receive` is empty, and the packets arrive.
unfoldable pub receive_packets : List (List ℕ) → Received
receive_packets [] = waiting
receive_packets (input ∷ incoming) =
    packet_loop (record { receive = []; frag = false; blank_count = 0 }) input incoming
