-- ===== src/Router/Sound.antt =====
-- Every operation keeps the invariant of the router.
use barry.Prelude.{
  is_minus_one, ℕ, zero, suc, ◌+◌, ◌-◌, ◌≡◌, refl, ap, Option, none, some, List, [], ◌∷◌, ◌==◌, not,
  if◌then◌else◌, arith, length, Option-cases, inl, inr, ℤ,
}
use barry.DataQueue.{Buffer, DataQueue, push, raw_pop, size, wait_pop}
use barry.DataQueue.Laws.{append_from-append}
use barry.Router.{
  Router, QueueEntry, InterestType, Outcome, done, logic_error, add_buffer, add_buffers,
  allocate_buffers, new_router, empty_router, return_buffer, register_interest_and_type,
  unregister_interest, change_interest, socket_pop, default_timeout, socket_read, default_read,
  ReadOutcome, handed, waiting, not_registered,
}
use barry.Router.Table.{find, store, SortedFrom, store-SortedFrom, erase-SortedFrom}
use barry.Router.Invariant.{
  same, count, count_sockets, copies, IsSound, count-append, count_sockets-store,
  count_sockets-store_new, count_sockets-erase, length-store, find-some-length,
}

-- Buffers that move between the places, while the map keeps its keys.
pub moves :
    (held held' : List Buffer) (r r' : Router)
    → IsSound held r
    → SortedFrom 0 r'.socket_queues
    → r'.interest ≡ not (length r'.socket_queues == 0)
    → r'.next_buffer ≡ r.next_buffer
    → ((i : ℕ) → copies i held' r' ≡ copies i held r)
    → IsSound held' r'
moves held held' r r' v s f n c = record {
  sorted = s;
  flag = f;
  owned = λ i. ground (arith, v.owned i, c i);
}

pub return_buffer-IsSound :
    (held : List Buffer) (b : Buffer) (r : Router)
    → IsSound (b ∷ held) r
    → IsSound held (return_buffer r b)
unfolding return_buffer push
return_buffer-IsSound held b r v =
    moves (b ∷ held) held r _ v v.sorted v.flag refl
      (λ i. omega (arith, count-append i r.free (b ∷ [])))

add_buffer-IsSound :
    (held : List Buffer) (r : Router) → IsSound held r → IsSound held (add_buffer r)
unfolding add_buffer push same
add_buffer-IsSound held r v = record {
  sorted = v.sorted;
  flag = v.flag;
  owned = λ i.
      ground
        (arith, v.owned i, count-append i r.free (record { id = r.next_buffer; bytes = [] } ∷ []));
}

add_buffers-IsSound :
    (n : ℕ) (held : List Buffer) (r : Router) → IsSound held r → IsSound held (add_buffers n r)
unfolding add_buffers
add_buffers-IsSound zero held r v = v
add_buffers-IsSound (suc n) held r v =
    add_buffers-IsSound n held (add_buffer r) (add_buffer-IsSound held r v)

pub allocate_buffers-IsSound :
    (held : List Buffer) (r : Router) (count : ℕ)
    → IsSound held r
    → IsSound held (allocate_buffers r count)
unfolding allocate_buffers
allocate_buffers-IsSound held r count v = add_buffers-IsSound (count - size r.free) held r v

-- What an operation that may throw leaves.
abbrev pub after : Router → Outcome → Router
after r (done r') = r'
after r logic_error = r

-- The entry of a registered socket gets another queue, handler or type.
pub store-IsSound :
    (held held' : List Buffer) (k : ℕ) (e e' : QueueEntry) (r r' : Router)
    → IsSound held r
    → find k r.socket_queues ≡ some e
    → r'.socket_queues ≡ store k e' r.socket_queues
    → r'.interest ≡ r.interest
    → r'.next_buffer ≡ r.next_buffer
    → ((i : ℕ)
        → count i held' + (count i r'.free + (count i r'.default + count i e'.queue))
          ≡ count i held + (count i r.free + (count i r.default + count i e.queue)))
    → IsSound held' r'
store-IsSound held held' k e e' r r' v h s f n c =
    moves held held' r r' v (rw s (store-SortedFrom 0 k e' r.socket_queues (omega arith) v.sorted))
      (ground
        (arith, v.flag, length-store k e' r.socket_queues, find-some-length k e r.socket_queues h))
      n
      (λ i. omega (
        arith,
        c i,
        ap (count_sockets i) s,
        count_sockets-store i 0 k e e' r.socket_queues v.sorted h,
      ))

pub register-IsSound :
    (held : List Buffer) (r : Router) (socket : ℕ) (handler : Option ℕ) (type : InterestType)
    → IsSound held r
    → IsSound held (after r (register_interest_and_type r socket handler type))
unfolding register_interest_and_type
register-IsSound held r socket handler type v = elim (Option-cases (find socket r.socket_queues)) [
  | inl new ↦
      let e : QueueEntry = record { handler = handler; queue = []; type = type } in
      rw (new, register_interest_and_type)
        record {
          sorted = store-SortedFrom 0 socket e r.socket_queues (omega arith) v.sorted;
          flag = ground (arith, length-store socket e r.socket_queues);
          owned =
              λ i. omega (arith, v.owned i, count_sockets-store_new i socket e r.socket_queues new);
        }
  | inr (e, taken) ↦ rw (taken, register_interest_and_type) v
]

pub change-IsSound :
    (held : List Buffer) (r : Router) (socket : ℕ) (type : InterestType)
    → IsSound held r
    → IsSound held (after r (change_interest r socket type))
unfolding change_interest
change-IsSound held r socket type v = elim (Option-cases (find socket r.socket_queues)) [
  | inl missing ↦ rw (missing, change_interest) v
  | inr (e, found) ↦
      rw (found, change_interest)
        (store-IsSound held held socket e (record e { type = type }) r _ v found refl refl refl
          (λ i. refl))
]

pub unregister-IsSound :
    (held : List Buffer) (r : Router) (socket : ℕ)
    → IsSound held r
    → IsSound held (unregister_interest r socket)
unfolding unregister_interest
unregister-IsSound held r socket v = elim (Option-cases (find socket r.socket_queues)) [
  | inl missing ↦ rw (missing, unregister_interest) v
  | inr (e, found) ↦
      rw (found, unregister_interest)
        (moves held held r _ v (erase-SortedFrom 0 socket r.socket_queues v.sorted) refl refl (λ i.
          omega (
            arith,
            ap (λ t. count i t.0) (append_from-append r.free e.queue),
            count-append i r.free e.queue,
            count_sockets-erase i socket e r.socket_queues found,
          )))
]

-- The buffer that a read hands out, if any, is in the hands of the reader.
abbrev pub hold : Option Buffer → List Buffer → List Buffer
hold none held = held
hold (some b) held = b ∷ held

-- A read at which no other thread pushes.
abbrev pub SoundRead : List Buffer → ReadOutcome → Type 0
SoundRead held (handed b r) = IsSound (hold b held) r
SoundRead held waiting = Unit {0}
SoundRead held not_registered = Unit {0}

quiet_pop :
    (q : DataQueue) (timeout : ℤ) (b : Option Buffer) (q' : DataQueue) (i : ℕ) (held : List Buffer)
    → wait_pop q timeout [] ≡ some (b, q')
    → count i (hold b held) + count i q' ≡ count i held + count i q
unfolding wait_pop raw_pop size
quiet_pop [] timeout b q' i held h = ground arith
quiet_pop (x ∷ q) timeout b q' i held h = ground arith

pub default_read-IsSound :
    (held : List Buffer) (r : Router) (timeout : ℤ)
    → IsSound held r
    → SoundRead held (default_read r timeout [])
unfolding default_read
default_read-IsSound held r timeout v =
    elim (Option-cases (wait_pop r.default (default_timeout r timeout) [])) [
      | inl e ↦ rw (e, default_read) tt
      | inr ((b, q), e) ↦
          rw (e, default_read)
            (moves held (hold b held) r (record r { default = q }) v v.sorted v.flag refl
              (λ i. omega (arith, quiet_pop r.default (default_timeout r timeout) b q i held e)))
    ]

socket_pop-IsSound :
    (held : List Buffer) (r : Router) (socket : ℕ) (timeout : ℤ) (e : QueueEntry)
    → IsSound held r
    → find socket r.socket_queues ≡ some e
    → SoundRead held (socket_pop r socket timeout [] e)
unfolding socket_pop
socket_pop-IsSound held r socket timeout e v found =
    let t : ℤ = if is_minus_one timeout then r.timeout else timeout in
    elim (Option-cases (wait_pop e.queue t [])) [
      | inl none_yet ↦ rw (none_yet, socket_pop) tt
      | inr ((b, q), popped) ↦
          rw (popped, socket_pop)
            (store-IsSound held (hold b held) socket e (record e { queue = q }) r _ v found refl
              refl refl (λ i. omega (arith, quiet_pop e.queue t b q i held popped)))
    ]

-- A read from a socket, at which no other thread pushes.
pub socket_read-IsSound :
    (held : List Buffer) (r : Router) (socket : ℕ) (timeout : ℤ)
    → IsSound held r
    → SoundRead held (socket_read r socket timeout [])
unfolding socket_read
socket_read-IsSound held r socket timeout v = elim (Option-cases (find socket r.socket_queues)) [
  | inl missing ↦ rw (missing, socket_read) tt
  | inr (e, found) ↦ rw (found, socket_read) (socket_pop-IsSound held r socket timeout e v found)
]

empty_router-IsSound : (timeout : ℤ) → IsSound [] (empty_router timeout)
unfolding empty_router
empty_router-IsSound timeout = record { sorted = tt; flag = refl; owned = λ i. ground arith }

pub new_router-IsSound : (n : ℕ) (timeout : ℤ) → IsSound [] (new_router n timeout)
unfolding new_router
new_router-IsSound n timeout =
    allocate_buffers-IsSound [] (empty_router timeout) n (empty_router-IsSound timeout)
