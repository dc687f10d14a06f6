-- ===== src/Router.antt =====
-- The socket router of src/router.h and src/router.cc.
--
-- A `Router` is the state of SocketRoutingQueue. Devices and handlers are numbers that stand for
-- their pointers; `next_buffer` is the pointer of the next `new Data`. What a handler does in
-- `DataReceived` and `Error` is a parameter: it may call the router again, so it maps the state.
-- Each function below is what one thread does between taking and giving up the router's lock, so
-- a thread that reads is three steps: `fetch`, the USB read itself, and `receive`.
pub mod Table
pub mod Reading
pub mod Invariant
pub mod Sound
pub mod ReadSound
pub mod System
pub mod Delivery
pub mod Order
use barry.Prelude.{
  ℕ, zero, suc, ◌+◌, ◌-◌, ◌≡◌, Bool, true, false, not, ◌&&◌, ◌||◌, Option, none, some, List, [],
  ◌∷◌, ◌++◌, ltb, leb, ◌==◌, if◌then◌else◌, ℤ, pos, negsuc, is_minus_one, length,
}
use barry.Protocol.{is_sequence_packet, socket_field, sequence_socket, packet_socket_size}
use barry.DataQueue.{Buffer, DataQueue, Event, push, pop, size, wait_pop, append_from}
use Table.{find, store, erase}

pub data InterestType : Type 0 where
  data_packets sequence_packets sequence_and_data_packets : InterestType

-- `m_type & SequencePackets`.
abbrev pub has_sequence_packets : InterestType → Bool
has_sequence_packets data_packets = false
has_sequence_packets sequence_packets = true
has_sequence_packets sequence_and_data_packets = true

-- `m_type & DataPackets`.
abbrev pub has_data_packets : InterestType → Bool
has_data_packets data_packets = true
has_data_packets sequence_packets = false
has_data_packets sequence_and_data_packets = true

pub record QueueEntry : Type 0 where
  pub handler : Option ℕ
  pub queue : DataQueue
  pub type : InterestType

pub record Router : Type 0 where
  pub dev : Option ℕ
  pub write_ep : ℕ
  pub read_ep : ℕ
  pub interest : Bool
  pub seen_usb_error : Bool
  pub usb_error_dev_callback : Option ℕ
  pub free : DataQueue
  pub default : DataQueue
  pub socket_queues : List (ℕ × QueueEntry)
  pub timeout : ℤ
  pub continue_reading : Bool
  pub next_buffer : ℕ

-- `new Data`, which the free queue gets.
unfoldable pub add_buffer : Router → Router
unfolding push
add_buffer r = record r {
  free = push r.free (record { id = r.next_buffer; bytes = [] });
  next_buffer = suc r.next_buffer;
}

unfoldable pub add_buffers : ℕ → Router → Router
add_buffers zero r = r
add_buffers (suc todo) r = add_buffers todo (add_buffer r)

unfoldable pub allocate_buffers : Router → ℕ → Router
unfolding add_buffers add_buffer size
allocate_buffers r count = add_buffers (count - size r.free) r

unfoldable pub empty_router : ℤ → Router
empty_router default_read_timeout = record {
  dev = none;
  write_ep = 0;
  read_ep = 0;
  interest = false;
  seen_usb_error = false;
  usb_error_dev_callback = none;
  free = [];
  default = [];
  socket_queues = [];
  timeout = default_read_timeout;
  continue_reading = false;
  next_buffer = 0;
}

unfoldable pub new_router : ℕ → ℤ → Router
new_router prealloc_buffer_count default_read_timeout =
    allocate_buffers (empty_router default_read_timeout) prealloc_buffer_count

unfoldable pub return_buffer : Router → Buffer → Router
unfolding push
return_buffer r b = record r { free = push r.free b }

unfoldable pub set_usb_device : Router → ℕ → ℕ → ℕ → Option ℕ → Router
set_usb_device r dev write_ep read_ep callback = record r {
  dev = some dev;
  usb_error_dev_callback = callback;
  write_ep = write_ep;
  read_ep = read_ep;
}

-- The wait for the reading thread's cycle that follows is not modelled.
pub clear_usb_device : Router → Router
clear_usb_device r = record r { dev = none; usb_error_dev_callback = none }

unfoldable pub usb_device_ready : Router → Bool
usb_device_ready r = elim r.dev [ none ↦ false | some d ↦ not r.seen_usb_error ]

-- `std::logic_error`, which leaves the router as it was.
pub data Outcome : Type 0 where
  done : Router → Outcome
  logic_error : Outcome

unfoldable pub register_interest_and_type : Router → ℕ → Option ℕ → InterestType → Outcome
unfolding find store
register_interest_and_type r socket handler type = elim (find socket r.socket_queues) [
  | some e ↦ logic_error
  | none ↦ done (record r {
    socket_queues =
        store socket (record { handler = handler; queue = []; type = type }) r.socket_queues;
    interest = true;
  })
]

pub register_interest : Router → ℕ → Option ℕ → Outcome
unfolding register_interest_and_type
register_interest r socket handler =
    register_interest_and_type r socket handler sequence_and_data_packets

pub unregister_interest : Router → ℕ → Router
unfolding find erase append_from
unregister_interest r socket = elim (find socket r.socket_queues) [
  | none ↦ r
  | some e ↦ record r {
    free = (append_from r.free e.queue).0;
    socket_queues = erase socket r.socket_queues;
    interest = not (length (erase socket r.socket_queues) == 0);
  }
]

pub change_interest : Router → ℕ → InterestType → Outcome
unfolding find store
change_interest r socket type = elim (find socket r.socket_queues) [
  | none ↦ logic_error
  | some e ↦
      done (record r { socket_queues = store socket (record e { type = type }) r.socket_queues })
]

pub is_available : Router → ℕ → Bool
unfolding find size
is_available r socket = elim (find socket r.socket_queues) [
  | none ↦ false
  | some e ↦ not (size e.queue == 0)
]

pub data ReadOutcome : Type 0 where
  -- The buffer that the new DataHandle owns, if any.
  handed : Option Buffer → Router → ReadOutcome
  waiting : ReadOutcome
  not_registered : ReadOutcome

-- The wait of `SocketRead` on the queue of its entry, which it keeps alive by a shared pointer.
socket_pop : Router → ℕ → ℤ → List Event → QueueEntry → ReadOutcome
unfolding store
socket_pop r socket timeout events e =
    elim (wait_pop e.queue (if is_minus_one timeout then r.timeout else timeout) events) [
      | none ↦ waiting
      | some (b, q) ↦
          handed b
            (record r { socket_queues = store socket (record e { queue = q }) r.socket_queues })
    ]

-- `SocketRead`; `events` is what happens during the wait on this queue.
pub socket_read : Router → ℕ → ℤ → List Event → ReadOutcome
unfolding find
socket_read r socket timeout events = elim (find socket r.socket_queues) [
  | none ↦ not_registered
  | some e ↦ socket_pop r socket timeout events e
]

abbrev default_timeout : Router → ℤ → ℤ
default_timeout r timeout =
    let t : ℤ = if r.seen_usb_error && is_minus_one timeout then pos 0 else timeout in
    if is_minus_one t then r.timeout else t

pub default_read : Router → ℤ → List Event → ReadOutcome
default_read r timeout events = elim (wait_pop r.default (default_timeout r timeout) events) [
  | none ↦ waiting
  | some (b, q) ↦ handed b (record r { default = q })
]
