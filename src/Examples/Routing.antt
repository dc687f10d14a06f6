-- ===== src/Examples/Routing.antt =====
-- Examples on the router and its queues.
use barry.Prelude.{ℕ, ◌≡◌, refl, true, false, Option, none, some, List, [], ◌∷◌, pos, negsuc}
use barry.DataQueue.{Buffer, DataQueue, Event, pushed, woken, wait_pop}
use barry.DataQueue.Laws.{wait_pop-Waited, Waited}
use barry.Protocol.{is_sequence_packet, socket_field, sequence_socket}
use barry.Router.{
  Router, QueueEntry, data_packets, sequence_and_data_packets, new_router, empty_router,
  register_interest_and_type, set_usb_device, usb_device_ready, allocate_buffers, add_buffers,
  add_buffer,
}
use barry.Router.Table.{find, store}
use barry.Router.Reading.{Ending, returned, packet, push_socket, receive, fetch_buffer, finish_read}
use barry.Router.Invariant.{IsSound}
use barry.Router.Sound.{after}
use barry.Router.System.{
  System, Reach, registers, set_up, fetches, finishes, here, next, Reach-IsSound,
}
use barry.Router.Delivery.{packet_socket, Joins, receive_sequence_packet}
use barry.Router.Order.{IsDataFor, IsQueued, reads, receive_all, reads-receive_all}

abbrev quiet_handler : ℕ → Buffer → Router → Ending × Router
quiet_handler h b r = (returned, r)

abbrev quiet_error : ℕ → Router → Router
quiet_error h r = r

abbrev buffer : ℕ → Buffer
buffer id = record { id = id; bytes = 7 ∷ 0 ∷ 6 ∷ 0 ∷ 0x40 ∷ id ∷ [] }

abbrev sequence_buffer : Buffer
sequence_buffer = record { id = 3; bytes = 0 ∷ 0 ∷ 12 ∷ 0 ∷ 0x13 ∷ 7 ∷ 0 ∷ 0 ∷ 1 ∷ 0 ∷ 0 ∷ 0 ∷ [] }

abbrev entry : Option ℕ → QueueEntry
entry handler = record { handler = handler; queue = []; type = sequence_and_data_packets }

abbrev router : Option ℕ → Router
router handler = record {
  dev = some 1;
  write_ep = 5;
  read_ep = 0x84;
  interest = true;
  seen_usb_error = false;
  usb_error_dev_callback = none;
  free = [];
  default = [];
  socket_queues = (7, entry handler) ∷ [];
  timeout = pos 0;
  continue_reading = true;
  next_buffer = 0;
}

abbrev events : List Event
events = woken ∷ pushed (buffer 1) ∷ pushed (buffer 2) ∷ woken ∷ []

abbrev first_arrival : Option Buffer × DataQueue
first_arrival = (some (buffer 1), buffer 2 ∷ [])

waits : wait_pop [] (negsuc 0) events ≡ some first_arrival
unfolding wait_pop
waits = refl

wait_pop-Waited_example : Waited [] events first_arrival
wait_pop-Waited_example = wait_pop-Waited [] (negsuc 0) events first_arrival waits

is_data : (id : ℕ) → IsDataFor 7 (buffer id)
unfolding is_sequence_packet socket_field
is_data id = record { long = refl; not_seq = refl; named = refl }

is_seq : is_sequence_packet sequence_buffer.bytes ≡ true
unfolding is_sequence_packet
is_seq = refl

found : (handler : Option ℕ) → find 7 (router handler).socket_queues ≡ some (entry handler)
unfolding find
found handler = refl

found_data :
    (handler : Option ℕ)
    → find (socket_field (buffer 1).bytes) (router handler).socket_queues ≡ some (entry handler)
unfolding find socket_field
found_data handler = refl

found_seq :
    (handler : Option ℕ)
    → find (sequence_socket sequence_buffer.bytes) (router handler).socket_queues
      ≡ some (entry handler)
unfolding find sequence_socket
found_seq handler = refl

is_queued : IsQueued 7 [] (router none)
is_queued = record {
  entry = entry none;
  found = found none;
  waits = refl;
  takes_data = refl;
  no_handler = refl;
  on = refl;
}

abbrev two_buffers : List Buffer
two_buffers = buffer 1 ∷ buffer 2 ∷ []

reads-receive_all_example :
    reads 2 (receive_all quiet_handler quiet_error (router none) two_buffers) 7 (pos 0)
    ≡ two_buffers
reads-receive_all_example =
    reads-receive_all quiet_handler quiet_error 7 two_buffers (router none) (pos 0)
      (is_data 1, (is_data 2, tt)) is_queued

receive_sequence_packet_example :
    (receive quiet_handler quiet_error (router (some 9)) sequence_buffer
      ≡ push_socket
          (router (some 9))
          (sequence_socket sequence_buffer.bytes)
          (entry (some 9))
          sequence_buffer)
    × Joins (sequence_socket sequence_buffer.bytes) [] sequence_buffer (router (some 9)) (
        push_socket
          (router (some 9))
          (sequence_socket sequence_buffer.bytes)
          (entry (some 9))
          sequence_buffer)
receive_sequence_packet_example =
    receive_sequence_packet quiet_handler quiet_error (router (some 9)) sequence_buffer
      (entry (some 9)) is_seq refl (found_seq (some 9))

abbrev unregistered : Router
unregistered = record (router none) { socket_queues = []; interest = false }

unknown : find (packet_socket sequence_buffer.bytes) unregistered.socket_queues ≡ none
unfolding find
unknown = refl

abbrev start : System
start = record { router = new_router 2 (pos 0); held = [] }

abbrev registered : System
registered = record start {
  router = after start.router (register_interest_and_type start.router 7 none data_packets);
}

abbrev with_device : System
with_device = record registered { router = set_usb_device registered.router 1 5 0x84 none }

device_ready : usb_device_ready with_device.router ≡ true
unfolding usb_device_ready set_usb_device register_interest_and_type new_router allocate_buffers
    add_buffers add_buffer empty_router find store
device_ready = refl

abbrev fetched : System
fetched = record {
  router = (fetch_buffer with_device.router).1;
  held = (fetch_buffer with_device.router).0 ∷ [];
}

abbrev delivered : System
delivered = record {
  router =
      finish_read quiet_handler quiet_error fetched.router (fetch_buffer with_device.router).0
        (packet (buffer 0).bytes);
  held = [];
}

reached : Reach quiet_handler quiet_error start delivered
reached =
    next
      (next
        (next (next here (registers start 7 none data_packets)) (set_up registered 1 5 0x84 none))
        (fetches with_device device_ready))
      (finishes fetched [] [] (fetch_buffer with_device.router).0 (packet (buffer 0).bytes) refl)

Reach-IsSound_example : IsSound delivered.held delivered.router
Reach-IsSound_example =
    Reach-IsSound quiet_handler quiet_error (λ held h b r v. v) (λ held h r v. v) 2 (pos 0) reached
