-- ===== src/Router/Order.antt =====
-- Packets of one socket are read in the order in which they arrived.
use mathlib.Core.List.{append_assoc, append-nil}
use barry.Prelude.{
  ℕ, zero, suc, ◌≡◌, refl, sym, ap, subst, ◌∙◌, none, some, List, [], ◌∷◌, ◌++◌, ltb, true, false,
  arith, length, ℤ, All,
}
use barry.DataQueue.{Buffer, DataQueue, push, raw_push, raw_pop, size, wait_pop}
use barry.Protocol.{is_sequence_packet, socket_field, packet_socket_size}
use barry.Router.{
  Router, QueueEntry, has_data_packets, socket_read, socket_pop, handed, waiting, not_registered,
}
use barry.Router.Reading.{push_socket, Ending, receive}
use barry.Router.Table.{find, store, find-store}
use barry.Router.Delivery.{receive_queued}

-- A packet for the socket that is no sequence packet.
pub record IsDataFor (socket : ℕ) (b : Buffer) : Type 0 where
  pub long : ltb (length b.bytes) packet_socket_size ≡ false
  pub not_seq : is_sequence_packet b.bytes ≡ false
  pub named : socket_field b.bytes ≡ socket

-- A registration for data packets, without a handler, and what waits in its queue.
pub record IsQueued (socket : ℕ) (q : DataQueue) (r : Router) : Type 0 where
  pub entry : QueueEntry
  pub found : find socket r.socket_queues ≡ some entry
  pub waits : entry.queue ≡ q
  pub takes_data : has_data_packets entry.type ≡ true
  pub no_handler : entry.handler ≡ none
  pub on : r.interest ≡ true

push_socket-IsQueued :
    (socket : ℕ) (q : DataQueue) (r : Router) (b : Buffer) (v : IsQueued socket q r)
    → IsQueued socket (q ++ (b ∷ [])) (push_socket r socket v.entry b)
unfolding push_socket push raw_push
push_socket-IsQueued socket q r b v = record {
  entry = record v.entry { queue = v.entry.queue ++ (b ∷ []) };
  found = ground (
    arith,
    find-store socket socket (record v.entry { queue = v.entry.queue ++ (b ∷ []) }) r.socket_queues,
  );
  waits = ap (λ t. t ++ (b ∷ [])) v.waits;
  takes_data = v.takes_data;
  no_handler = v.no_handler;
  on = v.on;
}

module _ (data_received : ℕ → Buffer → Router → Ending × Router)
    (on_error : ℕ → Router → Router) where
  abbrev pub receive_all : Router → List Buffer → Router
  receive_all r [] = r
  receive_all r (b ∷ bs) = receive_all (receive data_received on_error r b) bs

  receive_all-IsQueued :
      (socket : ℕ) (bs : List Buffer) (q : DataQueue) (r : Router)
      → All (IsDataFor socket) bs
      → IsQueued socket q r
      → IsQueued socket (q ++ bs) (receive_all r bs)
  receive_all-IsQueued socket [] q r h v = rw (append-nil q) v
  receive_all-IsQueued socket (b ∷ bs) q r (h, hs) v =
      let found : find (socket_field b.bytes) r.socket_queues ≡ some v.entry =
        rw (h.named) v.found in
      let step =
        (receive_queued data_received on_error r b v.entry h.long h.not_seq v.on found
          v.no_handler).0
        ∙ ap (λ s. push_socket r s v.entry b) h.named in
      subst (λ q'. IsQueued socket q' (receive_all r (b ∷ bs))) (append_assoc q (b ∷ []) bs)
        (receive_all-IsQueued socket bs (q ++ (b ∷ [])) (receive data_received on_error r b) hs (
          subst (IsQueued socket (q ++ (b ∷ []))) (sym step) (push_socket-IsQueued socket q r b v)))

-- `n` reads of a socket, at which nothing arrives, and the buffers that they hand out.
pub reads : ℕ → Router → ℕ → ℤ → List Buffer
reads zero r socket timeout = []
reads (suc n) r socket timeout = elim (socket_read r socket timeout []) [
  | handed b r' ↦ elim b [ none ↦ [] | some b ↦ b ∷ reads n r' socket timeout ]
  | waiting ↦ []
  | not_registered ↦ []
]

after_pop : (socket : ℕ) (e : QueueEntry) (q : DataQueue) (r : Router) → Router
after_pop socket e q r = record r {
  socket_queues = store socket (record e { queue = q }) r.socket_queues;
}

socket_read_pops :
    (socket : ℕ) (b : Buffer) (q : DataQueue) (r : Router) (timeout : ℤ)
    (v : IsQueued socket (b ∷ q) r)
    → socket_read r socket timeout [] ≡ handed (some b) (after_pop socket v.entry q r)
unfolding socket_read socket_pop wait_pop size raw_pop after_pop
socket_read_pops socket b q r timeout v = ground (arith, v.found, v.waits)

after_pop-IsQueued :
    (socket : ℕ) (b : Buffer) (q : DataQueue) (r : Router) (v : IsQueued socket (b ∷ q) r)
    → IsQueued socket q (after_pop socket v.entry q r)
unfolding after_pop
after_pop-IsQueued socket b q r v = record {
  entry = record v.entry { queue = q };
  found = ground (arith, find-store socket socket (record v.entry { queue = q }) r.socket_queues);
  waits = refl;
  takes_data = v.takes_data;
  no_handler = v.no_handler;
  on = v.on;
}

reads_queue :
    (socket : ℕ) (q : DataQueue) (r : Router) (timeout : ℤ)
    → IsQueued socket q r
    → reads (length q) r socket timeout ≡ q
unfolding reads
reads_queue socket [] r timeout v = refl
reads_queue socket (b ∷ q) r timeout v =
    rw (reads, socket_read_pops socket b q r timeout v)
      (ap (λ t. b ∷ t)
        (reads_queue socket q (after_pop socket v.entry q r) timeout
          (after_pop-IsQueued socket b q r v)))

-- Packets of at least two bytes that are no sequence packets, and arrive for a socket registered
-- for data packets, with no handler and an empty queue, while the interest flag is set, are read
-- from it in the order of their arrival, each of them once.
pub reads-receive_all :
    (data_received : ℕ → Buffer → Router → Ending × Router) (on_error : ℕ → Router → Router)
    (socket : ℕ) (bs : List Buffer) (r : Router) (timeout : ℤ)
    → All (IsDataFor socket) bs
    → IsQueued socket [] r
    → reads (length bs) (receive_all data_received on_error r bs) socket timeout ≡ bs
reads-receive_all data_received on_error socket bs r timeout h v =
    reads_queue socket bs _ timeout (receive_all-IsQueued data_received on_error socket bs [] r h v)
