-- ===== src/Router/Reading.antt =====
-- The reading side of src/router.cc: `DoRead` and the functions that it routes packets with.
use barry.Prelude.{
  ℕ, suc, Bool, true, false, Option, none, some, List, [], ◌∷◌, ltb, if◌then◌else◌, length,
}
use barry.Protocol.{is_sequence_packet, socket_field, sequence_socket, packet_socket_size}
use barry.DataQueue.{Buffer, push, pop}
use barry.Router.Table.{find, store}
use barry.Router.{
  QueueEntry, Router, return_buffer, usb_device_ready, has_sequence_packets, has_data_packets,
}

-- `qi->second->m_queue.push(buf.release())`.
unfoldable pub push_socket : Router → ℕ → QueueEntry → Buffer → Router
unfolding push store
push_socket r socket e b = record r {
  socket_queues = store socket (record e { queue = push e.queue b }) r.socket_queues;
}

-- Whether the interest of an entry covers a packet.
unfoldable pub covers : QueueEntry → Buffer → Bool
covers e b =
    if is_sequence_packet b.bytes then has_sequence_packets e.type else has_data_packets e.type

-- `QueuePacket` to a socket: whether the packet was taken.
unfoldable pub queue_packet : Router → ℕ → Buffer → Bool × Router
unfolding find
queue_packet r socket b =
    if r.interest
    then elim (find socket r.socket_queues) [
      | none ↦ (false, r)
      | some e ↦ if covers e b then (true, push_socket r socket e b) else (false, r)
    ]
    else (false, r)

-- `QueuePacket` to the default queue.
unfoldable pub queue_default : Router → Buffer → Router
unfolding push
queue_default r b = record r { default = push r.default b }

-- A buffer from the free queue, or a new one.
unfoldable pub fetch_buffer : Router → Buffer × Router
unfolding pop
fetch_buffer r =
    let (b, q) = pop r.free in
    elim b [
      | some b ↦ (b, record r { free = q })
      | none ↦ (
        record { id = r.next_buffer; bytes = [] },
        record r { free = q; next_buffer = suc r.next_buffer },
      )
    ]

-- The locked part of `DoRead`: a buffer from the free queue, or a new one.
unfoldable pub fetch : Router → Option (Buffer × Router)
fetch r = if usb_device_ready r then some (fetch_buffer r) else none

-- The handlers of the sockets, in the order of the map.
pub handlers_of : List (ℕ × QueueEntry) → List ℕ
handlers_of [] = []
handlers_of ((k, e) ∷ m) = elim e.handler [ none ↦ handlers_of m | some h ↦ h ∷ handlers_of m ]

-- A sequence packet is always queued, so that `SyncSend` sees it.
unfoldable pub receive_sequence : Router → Buffer → Router
receive_sequence r b =
    let (queued, r') = queue_packet r (sequence_socket b.bytes) b in
    if queued then r' else queue_default r' b

-- How a handler's `DataReceived` ends.
pub data Ending : Type 0 where
  returned usb_timeout usb_error other_exception : Ending

pub data Routed : Type 0 where
  taken refused : Routed
  threw : Ending → Routed

-- The end of a USB read.
pub data Read : Type 0 where
  packet : List ℕ → Read
  no_data timed_out failed : Read

module _ (data_received : ℕ → Buffer → Router → Ending × Router)
    (on_error : ℕ → Router → Router) where
  unfoldable pub call_handler : Router → ℕ → Buffer → Routed × Router
  call_handler r h b =
      let (e, r') = data_received h b r in
      elim e [
        | returned ↦ (taken, return_buffer r' b)
        | usb_timeout ↦ (threw usb_timeout, r')
        | usb_error ↦ (threw usb_error, r')
        | other_exception ↦ (threw other_exception, r')
      ]

  unfoldable pub route_or_queue_packet : Router → ℕ → Buffer → Routed × Router
  unfolding find
  route_or_queue_packet r socket b =
      if r.interest
      then elim (find socket r.socket_queues) [
        | none ↦ (refused, r)
        | some e ↦ elim e.handler [
          | some h ↦ call_handler r h b
          | none ↦ (taken, push_socket r socket e b)
        ]
      ]
      else (refused, r)

  unfoldable pub call_all : List ℕ → Router → Router
  call_all [] r = r
  call_all (h ∷ hs) r = call_all hs (on_error h r)

  unfoldable pub call_dev : Option ℕ → Router → Router
  call_dev none r = r
  call_dev (some h) r = on_error h r

  -- The handler of the `Usb::Error` catch: the callbacks are listed first, and called unlocked.
  unfoldable pub report_usb_error : Router → Router
  report_usb_error r =
      call_dev r.usb_error_dev_callback
        (call_all (handlers_of r.socket_queues) (record r { seen_usb_error = true }))

  -- What the catch clauses and the DataHandle's destructor do to a buffer that nobody took.
  unfoldable pub give_up : Ending → Router → Buffer → Router
  give_up returned r b = return_buffer r b
  give_up usb_timeout r b = return_buffer r b
  give_up usb_error r b = return_buffer (report_usb_error r) b
  give_up other_exception r b = return_buffer r b

  unfoldable pub receive_data : Router → Buffer → Router
  receive_data r b =
      let (routed, r') = route_or_queue_packet r (socket_field b.bytes) b in
      elim routed [ taken ↦ r' | refused ↦ queue_default r' b | threw e ↦ give_up e r' b ]

  -- `DoRead` from the end of a successful USB read on: `b` holds the packet.
  unfoldable pub receive : Router → Buffer → Router
  receive r b =
      if ltb (length b.bytes) packet_socket_size
      then return_buffer r b
      else if is_sequence_packet b.bytes
      then receive_sequence r b
      else receive_data r b

  -- `DoRead` from the end of the USB read on, with the buffer that `fetch` took.
  unfoldable pub finish_read : Router → Buffer → Read → Router
  finish_read r b (packet bytes) = receive r (record b { bytes = bytes })
  finish_read r b no_data = return_buffer r b
  finish_read r b timed_out = give_up usb_timeout r b
  finish_read r b failed = give_up usb_error r b

  -- A whole `DoRead` that no other thread comes between. Without a device it only sleeps.
  unfoldable pub do_read : Router → Read → Router
  do_read r read = elim (fetch r) [ none ↦ r | some (b, r') ↦ finish_read r' b read ]
