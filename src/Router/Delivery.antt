-- ===== src/Router/Delivery.antt =====
-- Where `DoRead` puts a packet, for each kind of packet and of registration.
use barry.Prelude.{
  ℕ, ◌≡◌, refl, ap, ◌∙◌, Option, none, some, List, [], ◌∷◌, ◌++◌, ltb, ◌==◌, true, false,
  if◌then◌else◌, arith, length, Bool-cases, inl, inr,
}
use barry.DataQueue.{Buffer, DataQueue, push, raw_push}
use barry.Protocol.{is_sequence_packet, socket_field, sequence_socket, packet_socket_size}
use barry.Router.{Router, QueueEntry, return_buffer, has_sequence_packets}
use barry.Router.Reading.{
  push_socket, covers, queue_packet, queue_default, Ending, returned, taken, refused, call_handler,
  route_or_queue_packet, receive_sequence, receive_data, receive,
}
use barry.Router.Table.{find, find-store}

-- The socket that a packet names.
abbrev pub packet_socket : List ℕ → ℕ
packet_socket p = if is_sequence_packet p then sequence_socket p else socket_field p

-- The packets that wait for the readers of a socket, if it is registered.
abbrev pub queue_of : ℕ → Router → Option DataQueue
queue_of t r = elim (find t r.socket_queues) [ none ↦ none | some e ↦ some e.queue ]

-- Only the queue of `socket` has changed, by `b` at its end.
pub record Joins (socket : ℕ) (q : DataQueue) (b : Buffer) (r r' : Router) : Type 0 where
  pub queues :
      (t : ℕ) → queue_of t r' ≡ (if socket == t then some (q ++ (b ∷ [])) else queue_of t r)
  pub same_free : r'.free ≡ r.free
  pub same_default : r'.default ≡ r.default
  pub same_interest : r'.interest ≡ r.interest

push_socket-Joins :
    (r : Router) (socket : ℕ) (e : QueueEntry) (b : Buffer)
    → Joins socket e.queue b r (push_socket r socket e b)
unfolding push_socket push raw_push
push_socket-Joins r socket e b = record {
  queues = λ t.
      ground
        (arith, find-store socket t (record e { queue = e.queue ++ (b ∷ []) }) r.socket_queues);
  same_free = refl;
  same_default = refl;
  same_interest = refl;
}

queue_packet_missing :
    (r : Router) (socket : ℕ) (b : Buffer)
    → find socket r.socket_queues ≡ none
    → queue_packet r socket b ≡ (false, r)
unfolding queue_packet
queue_packet_missing r socket b missing = ground arith

queue_packet_found :
    (r : Router) (socket : ℕ) (e : QueueEntry) (b : Buffer)
    → r.interest ≡ true
    → find socket r.socket_queues ≡ some e
    → queue_packet r socket b
      ≡ (if covers e b then (true, push_socket r socket e b) else (false, r))
unfolding queue_packet
queue_packet_found r socket e b on found = ground arith

covers_sequence :
    (e : QueueEntry) (b : Buffer)
    → is_sequence_packet b.bytes ≡ true
    → covers e b ≡ has_sequence_packets e.type
unfolding covers
covers_sequence e b seq = rw seq

sequence_long :
    (b : Buffer)
    → is_sequence_packet b.bytes ≡ true
    → ltb (length b.bytes) packet_socket_size ≡ false
unfolding is_sequence_packet
sequence_long b seq = ground arith

-- A sequence packet never reaches a handler: it joins the queue of its socket where the
-- registration asks for sequence packets, and else the default queue.
receive_sequence_found :
    (r : Router) (e : QueueEntry) (b : Buffer)
    → r.interest ≡ true
    → is_sequence_packet b.bytes ≡ true
    → find (sequence_socket b.bytes) r.socket_queues ≡ some e
    → receive_sequence r b ≡ (
        if has_sequence_packets e.type
        then push_socket r (sequence_socket b.bytes) e b
        else queue_default r b)
unfolding receive_sequence
receive_sequence_found r e b on seq found =
    let s = sequence_socket b.bytes in
    let q : queue_packet r s b
        ≡ (if has_sequence_packets e.type then (true, push_socket r s e b) else (false, r)) =
      rw (← covers_sequence e b seq) (queue_packet_found r s e b on found) in
    rw (receive_sequence, q) (ground arith)

module _ (data_received : ℕ → Buffer → Router → Ending × Router) (on_error : ℕ → Router → Router)
    (r : Router) (b : Buffer) where
  route_missing :
      (socket : ℕ)
      → find socket r.socket_queues ≡ none
      → route_or_queue_packet data_received on_error r socket b ≡ (refused, r)
  unfolding route_or_queue_packet
  route_missing socket missing = ground arith

  route_queued :
      (socket : ℕ) (e : QueueEntry)
      → r.interest ≡ true
      → find socket r.socket_queues ≡ some e
      → e.handler ≡ none
      → route_or_queue_packet data_received on_error r socket b ≡ (taken, push_socket r socket e b)
  unfolding route_or_queue_packet
  route_queued socket e on found queue = simp (on, found, queue)

  route_handled :
      (socket h : ℕ) (e : QueueEntry)
      → r.interest ≡ true
      → find socket r.socket_queues ≡ some e
      → e.handler ≡ some h
      → route_or_queue_packet data_received on_error r socket b
        ≡ call_handler data_received on_error r h b
  unfolding route_or_queue_packet
  route_handled socket h e on found handler = simp (on, found, handler)

  call_handler_returned :
      (h : ℕ)
      → (data_received h b r).0 ≡ returned
      → call_handler data_received on_error r h b ≡ (taken, return_buffer (data_received h b r).1 b)
  unfolding call_handler
  call_handler_returned h back = rw (call_handler, back)

  -- A packet of at least two bytes that names a socket which nobody registered goes to the end of
  -- the default queue, and nothing else changes.
  receive_unregistered :
      (ltb (length b.bytes) packet_socket_size ≡ false)
      → find (packet_socket b.bytes) r.socket_queues ≡ none
      → receive data_received on_error r b ≡ record r { default = r.default ++ (b ∷ []) }
  unfolding receive receive_sequence receive_data queue_default push raw_push
  receive_unregistered long missing = elim (Bool-cases (is_sequence_packet b.bytes)) [
    | inl seq ↦
        let m : find (sequence_socket b.bytes) r.socket_queues ≡ none = rw seq at missing in
        rw (long, seq, receive_sequence, queue_packet_missing r (sequence_socket b.bytes) b m)
    | inr not_seq ↦
        let m : find (socket_field b.bytes) r.socket_queues ≡ none = rw not_seq at missing in
        let route = route_missing (socket_field b.bytes) m in
        rw (long, not_seq, receive_data, route) (ap (λ t. queue_default t.1 b) route)
  ]

  -- A packet of at least two bytes that is no sequence packet, for a registered socket without a
  -- handler and with the interest flag set, joins the queue of that socket, whatever type of
  -- interest is registered; no other queue changes, nor the flag.
  pub receive_queued :
      (e : QueueEntry)
      → (ltb (length b.bytes) packet_socket_size ≡ false)
      → is_sequence_packet b.bytes ≡ false
      → r.interest ≡ true
      → find (socket_field b.bytes) r.socket_queues ≡ some e
      → e.handler ≡ none
      → (receive data_received on_error r b ≡ push_socket r (socket_field b.bytes) e b)
        × Joins (socket_field b.bytes) e.queue b r (push_socket r (socket_field b.bytes) e b)
  unfolding receive receive_data
  receive_queued e long not_seq on found queue =
      let s = socket_field b.bytes in
      (
        rw (long, not_seq, receive_data, route_queued s e on found queue)
            (ap (λ t. t.1) (route_queued s e on found queue)),
        push_socket-Joins r s e b,
      )

  -- A packet of at least two bytes that is no sequence packet, for a registered socket with a
  -- handler that returns and with the interest flag set, is shown to the handler, and its buffer
  -- goes back to the free queue of the router that the handler left.
  receive_handled :
      (e : QueueEntry) (h : ℕ)
      → (ltb (length b.bytes) packet_socket_size ≡ false)
      → is_sequence_packet b.bytes ≡ false
      → r.interest ≡ true
      → find (socket_field b.bytes) r.socket_queues ≡ some e
      → e.handler ≡ some h
      → (data_received h b r).0 ≡ returned
      → receive data_received on_error r b ≡ return_buffer (data_received h b r).1 b
  unfolding receive receive_data
  receive_handled e h long not_seq on found handler back =
      let route =
        route_handled (socket_field b.bytes) h e on found handler ∙ call_handler_returned h back in
      rw (long, not_seq, receive_data, route) (ap (λ t. t.1) route)

  -- With the interest flag set, a sequence packet for a registered socket never reaches a handler:
  -- where the registration asks for sequence packets it joins the queue of that socket, no other
  -- queue changes nor the flag, and else it goes to the end of the default queue and nothing else
  -- changes.
  pub receive_sequence_packet :
      (e : QueueEntry)
      → is_sequence_packet b.bytes ≡ true
      → r.interest ≡ true
      → find (sequence_socket b.bytes) r.socket_queues ≡ some e
      → (receive data_received on_error r b ≡ (
          if has_sequence_packets e.type
          then push_socket r (sequence_socket b.bytes) e b
          else record r { default = r.default ++ (b ∷ []) }))
        × Joins (sequence_socket b.bytes) e.queue b r (push_socket r (sequence_socket b.bytes) e b)
  unfolding receive queue_default push raw_push
  receive_sequence_packet e seq on found =
      let long : ltb (length b.bytes) packet_socket_size ≡ false = sequence_long b seq in
      let eq = receive_sequence_found r e b on seq found in
      (rw (long, seq, eq), push_socket-Joins r (sequence_socket b.bytes) e b)
