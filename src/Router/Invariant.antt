-- ===== src/Router/Invariant.antt =====
-- The invariant of the router: where the buffers are, the order of the map, the interest flag.
use barry.Prelude.{
  ℕ, suc, ◌+◌, ◌<◌, ◌≡◌, none, some, List, [], ◌∷◌, ◌++◌, ltb, ◌==◌, not, if◌then◌else◌, arith,
  length,
}
use barry.DataQueue.{Buffer}
use barry.Router.{Router, QueueEntry}
use barry.Router.Table.{find, store, erase, SortedFrom, find_below}

unfoldable pub same : ℕ → ℕ → ℕ
same i j = if i == j then 1 else 0

-- How often the buffer `i` stands in a queue.
abbrev pub count : ℕ → List Buffer → ℕ
count i [] = 0
count i (b ∷ bs) = same b.id i + count i bs

abbrev pub count_sockets : ℕ → List (ℕ × QueueEntry) → ℕ
count_sockets i [] = 0
count_sockets i ((k, e) ∷ m) = count i e.queue + count_sockets i m

-- How often the buffer `i` stands in the router and among the buffers that threads hold.
abbrev pub copies : ℕ → List Buffer → Router → ℕ
copies i held r =
    count i held + (count i r.free + (count i r.default + count_sockets i r.socket_queues))

-- Every buffer that was ever allocated is in exactly one place: the free queue, the default queue,
-- the queue of one socket, or the hands of one thread. The map has no key twice, and the interest
-- flag says whether a socket is registered.
pub record IsSound (held : List Buffer) (r : Router) : Type 0 where
  pub sorted : SortedFrom 0 r.socket_queues
  pub flag : r.interest ≡ not (length r.socket_queues == 0)
  pub owned : (i : ℕ) → copies i held r ≡ (if ltb i r.next_buffer then 1 else 0)

pub count-append : (i : ℕ) (xs ys : List Buffer) → count i (xs ++ ys) ≡ count i xs + count i ys
count-append i [] ys = omega arith
count-append i (x ∷ xs) ys = omega (arith, count-append i xs ys)

pub count_sockets-store :
    (i n k : ℕ) (e e' : QueueEntry) (m : List (ℕ × QueueEntry))
    → SortedFrom n m
    → find k m ≡ some e
    → count_sockets i (store k e' m) + count i e.queue ≡ count_sockets i m + count i e'.queue
unfolding find store
count_sockets-store i n k e e' [] s h = cc
count_sockets-store i n k e e' ((j, b) ∷ m) s h =
    ground (arith, count_sockets-store i (suc j) k e e' m s.1, find_below (suc j) k m s.1)

pub count_sockets-store_new :
    (i k : ℕ) (e : QueueEntry) (m : List (ℕ × QueueEntry))
    → find k m ≡ none
    → count_sockets i (store k e m) ≡ count_sockets i m + count i e.queue
unfolding find store
count_sockets-store_new i k e [] h = omega arith
count_sockets-store_new i k e ((j, b) ∷ m) h = ground (arith, count_sockets-store_new i k e m)

pub count_sockets-erase :
    (i k : ℕ) (e : QueueEntry) (m : List (ℕ × QueueEntry))
    → find k m ≡ some e
    → count_sockets i (erase k m) + count i e.queue ≡ count_sockets i m
unfolding find erase
count_sockets-erase i k e [] h = cc
count_sockets-erase i k e ((j, b) ∷ m) h = ground (arith, count_sockets-erase i k e m)

pub length-store : (k : ℕ) (e : QueueEntry) (m : List (ℕ × QueueEntry)) → 0 < length (store k e m)
unfolding store
length-store k e [] = omega arith
length-store k e ((j, b) ∷ m) = ground arith

pub find-some-length :
    (k : ℕ) (e : QueueEntry) (m : List (ℕ × QueueEntry)) → find k m ≡ some e → 0 < length m
unfolding find
find-some-length k e [] h = cc
find-some-length k e ((j, b) ∷ m) h = omega arith
