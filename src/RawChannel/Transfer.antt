-- ===== src/RawChannel/Transfer.antt =====
-- `Send` and `Receive` of src/m_raw_channel.cc, with `RawSend` of src/socket.cc.
use barry.Prelude.{
  ℕ, ◌+◌, Option, none, some, List, [], ◌∷◌, ltb, leb, if◌then◌else◌, length, take, drop, splice,
  ◌-◌, pos,
}
use barry.Protocol.{packet_header_size, size_field, u16_bytes}
use barry.Data.{Data, get_buffer, write, released, release_buffer}
use barry.RawChannel.{
  RawChannel, Reason, Event, handle_all, channelpacket_header_size, channelpacket_max_data_size,
  valid, wrong_size, mismatch, validate_data_packet,
}

pub data Sending : Type 0 where
  sent : Sending
  -- The exceptions: the data is too long, an error is pending, and what `SyncSend` throws.
  data_too_large : Sending
  pending : Reason → Sending
  socket_failed : List ℕ → Sending

-- What happens while `SyncSend` runs: the handler calls, and whether it throws.
pub record Meanwhile : Type 0 where
  pub events : List Event
  pub failure : Option (List ℕ)

-- `Socket::RawSend` writes the socket into a packet that has a header.
unfoldable pub raw_send : ℕ → List ℕ → List ℕ
raw_send socket send =
    if leb packet_header_size (length send) then splice send 0 (u16_bytes socket) else send

-- How `Send` ends, the channel after it, and the packets that it gave to the device.
pub record Sent : Type 0 where
  pub ending : Sending
  pub channel : RawChannel
  pub wire : List (List ℕ)

-- The buffer after the header and the data were put in.
unfoldable pub fill_buffer : List ℕ → List ℕ → List ℕ
fill_buffer buffer bytes =
    splice (splice buffer 2 (u16_bytes (channelpacket_header_size + length bytes)))
      channelpacket_header_size bytes

-- `SyncSend` changes a copy of the packet, since `toSend` is external.
unfoldable pub send_packet : ℕ → RawChannel → List ℕ → Meanwhile → Sent
send_packet socket c bytes meanwhile =
    let buffer = fill_buffer c.send_buffer bytes in
    let out = raw_send socket (take (channelpacket_header_size + length bytes) buffer) in
    let after = handle_all (record c { send_buffer = buffer }) meanwhile.events in
    elim meanwhile.failure [
      | some what ↦ record { ending = socket_failed what; channel = after; wire = out ∷ [] }
      | none ↦ elim after.pending_error [
        | some why ↦ record { ending = pending why; channel = after; wire = out ∷ [] }
        | none ↦ record { ending = sent; channel = after; wire = out ∷ [] }
      ]
    ]

unfoldable pub send : ℕ → RawChannel → List ℕ → Meanwhile → Sent
unfolding send_packet
send socket c bytes meanwhile =
    if ltb (channelpacket_header_size + channelpacket_max_data_size)
      (channelpacket_header_size + length bytes)
    then record { ending = data_too_large; channel = c; wire = [] }
    else elim c.pending_error [
      | some why ↦ record { ending = pending why; channel = c; wire = [] }
      | none ↦ send_packet socket c bytes meanwhile
    ]

pub data Receiving : Type 0 where
  received : Data → Receiving
  -- The exceptions: the channel has a callback, an error is pending, what `m_socket->Receive`
  -- throws, the two of `ValidateDataPacket`, and those of `ReleaseBuffer`.
  has_callback : Receiving
  error_pending : Reason → Receiving
  nothing_arrived : Receiving
  bad_size size_mismatch not_released : Receiving
  -- The copy left the buffer of the caller.
  overrun : Receiving

-- The copy into the buffer of the caller.
unfoldable pub hand_over : Data → List ℕ → Receiving
hand_over d bytes = elim (get_buffer d 0) [
  | none ↦ overrun
  | some d' ↦ elim (write d'.mem_block d'.data_start bytes) [
    | none ↦ overrun
    | some block ↦ elim (release_buffer (record d' { mem_block = block }) (pos (length bytes))) [
      | released d'' ↦ received d''
      | _ ↦ not_released
    ]
  ]
]

-- `Receive`, where `m_socket->Receive` brings the packet `arrived`, or throws.
unfoldable pub receive : RawChannel → Data → Option (List ℕ) → Receiving
unfolding hand_over
receive c d arrived = if c.has_callback then has_callback else elim c.pending_error [
  | some why ↦ error_pending why
  | none ↦ elim arrived [
    | none ↦ nothing_arrived
    | some packet ↦ elim (validate_data_packet packet) [
      | valid ↦ hand_over d (
          take (size_field packet - channelpacket_header_size)
            (drop channelpacket_header_size packet))
      | wrong_size ↦ bad_size
      | mismatch ↦ size_mismatch
    ]
  ]
]
