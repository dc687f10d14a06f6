-- ===== src/DataQueue.antt =====
-- The FIFO of src/dataqueue.h and src/dataqueue.cc.
--
-- A queue is the list of the Data objects that it points to, front first. `id` stands for the
-- pointer of an object and `bytes` for its contents. Each operation runs under the queue's lock and
-- is one step here. A wait is given what happens until it ends: the pushes of other threads, and its
-- own wake-ups. A push need not wake it: it can come after the test of the queue and before the
-- wait of the condition, whose signal is lost then. A wake-up need not have a push before it.
-- That the list runs out of memory is not modelled.
pub mod Laws
use barry.Prelude.{
  ℕ, zero, suc, ◌+◌, ◌≡◌, Bool, true, false, not, Option, none, some, List, [], ◌∷◌, ◌++◌, ◌==◌,
  if◌then◌else◌, ℤ, is_minus_one, length,
}

pub record Buffer : Type 0 where
  pub id : ℕ
  pub bytes : List ℕ

abbrev pub DataQueue : Type 0
DataQueue = List Buffer

unfoldable pub raw_push : DataQueue → Buffer → DataQueue
raw_push q b = q ++ (b ∷ [])

unfoldable pub raw_pop : DataQueue → Option Buffer × DataQueue
raw_pop [] = (none, [])
raw_pop (b ∷ q) = (some b, q)

unfoldable pub push : DataQueue → Buffer → DataQueue
unfolding raw_push
push q b = raw_push q b

unfoldable pub pop : DataQueue → Option Buffer × DataQueue
unfolding raw_pop
pop q = raw_pop q

unfoldable pub size : DataQueue → ℕ
size q = length q

pub empty : DataQueue → Bool
unfolding size
empty q = size q == 0

-- What happens while a thread waits.
pub data Event : Type 0 where
  pushed : Buffer → Event
  -- The wait of the condition returns.
  woken : Event

-- The `do`-`while` of a wait without a timeout. `none`: the thread still waits.
wait_loop : DataQueue → List Event → Option (Option Buffer × DataQueue)
unfolding size raw_pop raw_push
wait_loop q [] = none
wait_loop q (pushed b ∷ events) = wait_loop (raw_push q b) events
wait_loop q (woken ∷ events) =
    let rest = wait_loop q events in if size q == 0 then rest else some (raw_pop q)

-- The timed wait: it is woken once, or its time runs out at the end of the events.
timed_wait : DataQueue → List Event → Option Buffer × DataQueue
unfolding raw_pop raw_push
timed_wait q [] = raw_pop q
timed_wait q (pushed b ∷ events) = timed_wait (raw_push q b) events
timed_wait q (woken ∷ events) = raw_pop q

unfoldable pub wait_pop : DataQueue → ℤ → List Event → Option (Option Buffer × DataQueue)
unfolding size raw_pop wait_loop timed_wait
wait_pop q timeout events =
    if not (size q == 0)
    then some (raw_pop q)
    else if is_minus_one timeout
    then wait_loop q events
    else some (timed_wait q events)

-- The queue that receives, and the queue that is emptied.
unfoldable pub append_from : DataQueue → DataQueue → DataQueue × DataQueue
unfolding raw_push
append_from us [] = (us, [])
append_from us (b ∷ other) = append_from (raw_push us b) other
