-- ===== src/Router/ReadSound.antt =====
-- The reading thread keeps the invariant of the router, whatever the USB read and the handlers do,
-- and so do threads that come between its steps.
use barry.Prelude.{
  ℕ, ◌≡◌, refl, ap, Option, none, some, List, [], ◌∷◌, ltb, Bool, true, false, arith, length,
  Option-cases, Bool-cases, inl, inr,
}
use barry.DataQueue.{Buffer, DataQueue, push, pop, raw_pop}
use barry.Protocol.{is_sequence_packet, socket_field, sequence_socket, packet_socket_size}
use barry.Router.{Router, QueueEntry, return_buffer}
use barry.Router.Reading.{
  push_socket, covers, fetch_buffer, queue_packet, queue_default, Ending, returned, usb_timeout,
  usb_error, other_exception, Routed, taken, refused, threw, Read, packet, no_data, timed_out,
  failed, call_handler, route_or_queue_packet, call_all, call_dev, handlers_of, report_usb_error,
  give_up, receive_sequence, receive_data, receive, finish_read,
}
use barry.Router.Table.{find}
use barry.Router.Invariant.{same, count, IsSound, count-append}
use barry.Router.Sound.{moves, store-IsSound, return_buffer-IsSound}

fetch_from :
    (held : List Buffer) (r : Router) (q : DataQueue)
    → r.free ≡ q
    → IsSound held r
    → IsSound ((fetch_buffer r).0 ∷ held) (fetch_buffer r).1
unfolding fetch_buffer pop raw_pop same
fetch_from held r [] e v = record {
  sorted = ground (arith, v.sorted);
  flag = ground (arith, v.flag);
  owned = λ i. ground (arith, v.owned i, ap (count i) e);
}
fetch_from held r (b ∷ q) e v = record {
  sorted = ground (arith, v.sorted);
  flag = ground (arith, v.flag);
  owned = λ i. ground (arith, v.owned i, ap (count i) e);
}

pub fetch_buffer-IsSound :
    (held : List Buffer) (r : Router)
    → IsSound held r
    → IsSound ((fetch_buffer r).0 ∷ held) (fetch_buffer r).1
fetch_buffer-IsSound held r v = fetch_from held r r.free refl v

queue_default-IsSound :
    (held : List Buffer) (b : Buffer) (r : Router)
    → IsSound (b ∷ held) r
    → IsSound held (queue_default r b)
unfolding queue_default push
queue_default-IsSound held b r v =
    moves (b ∷ held) held r _ v v.sorted v.flag refl
      (λ i. omega (arith, count-append i r.default (b ∷ [])))

push_socket-IsSound :
    (held : List Buffer) (b : Buffer) (r : Router) (socket : ℕ) (e : QueueEntry)
    → IsSound (b ∷ held) r
    → find socket r.socket_queues ≡ some e
    → IsSound held (push_socket r socket e b)
unfolding push_socket
push_socket-IsSound held b r socket e v found =
    store-IsSound (b ∷ held) held socket e (record e { queue = push e.queue b }) r _ v found refl
      refl refl (λ i. omega (arith, count-append i e.queue (b ∷ [])))

-- The buffer stays in the hands of the thread exactly if it was not queued.
abbrev still : Bool → Buffer → List Buffer → List Buffer
still true b held = held
still false b held = b ∷ held

queue_packet-IsSound :
    (held : List Buffer) (b : Buffer) (r : Router) (socket : ℕ)
    → IsSound (b ∷ held) r
    → IsSound (still (queue_packet r socket b).0 b held) (queue_packet r socket b).1
unfolding queue_packet
queue_packet-IsSound held b r socket v = elim (Bool-cases r.interest) [
  | inl on ↦ elim (Option-cases (find socket r.socket_queues)) [
    | inl missing ↦ simp (on, missing) v
    | inr (e, found) ↦ elim (Bool-cases (covers e b)) [
      | inl c ↦ simp (on, found, c) (push_socket-IsSound held b r socket e v found)
      | inr c ↦ simp (on, found, c) v
    ]
  ]
  | inr off ↦ simp off v
]

receive_sequence-IsSound :
    (held : List Buffer) (b : Buffer) (r : Router)
    → IsSound (b ∷ held) r
    → IsSound held (receive_sequence r b)
unfolding receive_sequence
receive_sequence-IsSound held b r v =
    let s = sequence_socket b.bytes in
    let kept = queue_packet-IsSound held b r s v in
    elim (Bool-cases (queue_packet r s b).0) [
      | inl queued ↦ simp queued (rw queued at kept)
      | inr refused_it ↦
          simp refused_it
            (queue_default-IsSound held b (queue_packet r s b).1 (rw refused_it at kept))
    ]

-- What a thread still holds after a packet was routed.
abbrev left : Routed → Buffer → List Buffer → List Buffer
left taken b held = held
left refused b held = b ∷ held
left (threw e) b held = b ∷ held

module _ (data_received : ℕ → Buffer → Router → Ending × Router) (on_error : ℕ → Router → Router)
    (data_received-IsSound : (held : List Buffer) (h : ℕ) (b : Buffer) (r : Router)
      → IsSound (b ∷ held) r
      → IsSound (b ∷ held) (data_received h b r).1)
    (on_error-IsSound : (held : List Buffer) (h : ℕ) (r : Router)
      → IsSound held r
      → IsSound held (on_error h r)) where
  ended-IsSound :
      (held : List Buffer) (b : Buffer) (e : Ending) (r : Router)
      → IsSound (b ∷ held) r
      → let end : Routed × Router = elim e [
        | returned ↦ (taken, return_buffer r b)
        | usb_timeout ↦ (threw usb_timeout, r)
        | usb_error ↦ (threw usb_error, r)
        | other_exception ↦ (threw other_exception, r)
      ] in
        IsSound (left end.0 b held) end.1
  ended-IsSound held b returned r v = return_buffer-IsSound held b r v
  ended-IsSound held b usb_timeout r v = v
  ended-IsSound held b usb_error r v = v
  ended-IsSound held b other_exception r v = v

  call_handler-IsSound :
      (held : List Buffer) (r : Router) (h : ℕ) (b : Buffer)
      → IsSound (b ∷ held) r
      → IsSound
          (left (call_handler data_received on_error r h b).0 b held)
          (call_handler data_received on_error r h b).1
  unfolding call_handler
  call_handler-IsSound held r h b v =
      ended-IsSound held b (data_received h b r).0 (data_received h b r).1
        (data_received-IsSound held h b r v)

  route-IsSound :
      (held : List Buffer) (r : Router) (socket : ℕ) (b : Buffer)
      → IsSound (b ∷ held) r
      → IsSound
          (left (route_or_queue_packet data_received on_error r socket b).0 b held)
          (route_or_queue_packet data_received on_error r socket b).1
  unfolding route_or_queue_packet
  route-IsSound held r socket b v = elim (Bool-cases r.interest) [
    | inl on ↦ elim (Option-cases (find socket r.socket_queues)) [
      | inl missing ↦ simp (on, missing) v
      | inr (e, found) ↦ elim (Option-cases e.handler) [
        | inl queue ↦ simp (on, found, queue) (push_socket-IsSound held b r socket e v found)
        | inr (h, handler) ↦ simp (on, found, handler) (call_handler-IsSound held r h b v)
      ]
    ]
    | inr off ↦ simp off v
  ]

  call_all-IsSound :
      (held : List Buffer) (hs : List ℕ) (r : Router)
      → IsSound held r
      → IsSound held (call_all data_received on_error hs r)
  unfolding call_all
  call_all-IsSound held [] r v = v
  call_all-IsSound held (h ∷ hs) r v =
      call_all-IsSound held hs (on_error h r) (on_error-IsSound held h r v)

  call_dev-IsSound :
      (held : List Buffer) (h : Option ℕ) (r : Router)
      → IsSound held r
      → IsSound held (call_dev data_received on_error h r)
  unfolding call_dev
  call_dev-IsSound held none r v = v
  call_dev-IsSound held (some h) r v = on_error-IsSound held h r v

  report-IsSound :
      (held : List Buffer) (r : Router)
      → IsSound held r
      → IsSound held (report_usb_error data_received on_error r)
  unfolding report_usb_error
  report-IsSound held r v = call_dev-IsSound held r.usb_error_dev_callback _ (
      call_all-IsSound held (handlers_of r.socket_queues) (record r { seen_usb_error = true })
        (moves held held r _ v v.sorted v.flag refl (λ i. refl)))

  give_up-IsSound :
      (held : List Buffer) (e : Ending) (r : Router) (b : Buffer)
      → IsSound (b ∷ held) r
      → IsSound held (give_up data_received on_error e r b)
  unfolding give_up
  give_up-IsSound held returned r b v = return_buffer-IsSound held b r v
  give_up-IsSound held usb_timeout r b v = return_buffer-IsSound held b r v
  give_up-IsSound held usb_error r b v =
      return_buffer-IsSound held b _ (report-IsSound (b ∷ held) r v)
  give_up-IsSound held other_exception r b v = return_buffer-IsSound held b r v

  routed-IsSound :
      (held : List Buffer) (b : Buffer) (routed : Routed) (r : Router)
      → IsSound (left routed b held) r
      → IsSound held (elim routed [
        | taken ↦ r
        | refused ↦ queue_default r b
        | threw e ↦ give_up data_received on_error e r b
      ])
  routed-IsSound held b taken r v = v
  routed-IsSound held b refused r v = queue_default-IsSound held b r v
  routed-IsSound held b (threw e) r v = give_up-IsSound held e r b v

  receive-IsSound :
      (held : List Buffer) (r : Router) (b : Buffer)
      → IsSound (b ∷ held) r
      → IsSound held (receive data_received on_error r b)
  unfolding receive receive_data
  receive-IsSound held r b v = elim (Bool-cases (ltb (length b.bytes) packet_socket_size)) [
    | inl short ↦ rw short (return_buffer-IsSound held b r v)
    | inr long ↦ elim (Bool-cases (is_sequence_packet b.bytes)) [
      | inl seq ↦ rw (long, seq) (receive_sequence-IsSound held b r v)
      | inr data_packet ↦
          rw (long, data_packet)
            (routed-IsSound held b _ _ (route-IsSound held r (socket_field b.bytes) b v))
    ]
  ]

  -- With handlers that keep the invariant, the end of a USB read keeps it, however the read ended,
  -- and the thread holds the buffer no more.
  pub finish_read-IsSound :
      (held : List Buffer) (r : Router) (b : Buffer) (read : Read)
      → IsSound (b ∷ held) r
      → IsSound held (finish_read data_received on_error r b read)
  unfolding finish_read
  finish_read-IsSound held r b (packet bytes) v =
      receive-IsSound held r (record b { bytes = bytes })
        (record { sorted = v.sorted; flag = v.flag; owned = v.owned })
  finish_read-IsSound held r b no_data v = return_buffer-IsSound held b r v
  finish_read-IsSound held r b timed_out v = give_up-IsSound held usb_timeout r b v
  finish_read-IsSound held r b failed v = give_up-IsSound held usb_error r b v
