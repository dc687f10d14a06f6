-- ===== src/DataQueue/Laws.antt =====
-- The queue is first in, first out, and a wait neither loses nor makes up an element.
use mathlib.Core.List.{append_assoc, append-nil}
use mathlib.Core.Option.{some-injective}
use barry.Prelude.{
  ◌≡◌, refl, sym, ap, ◌∙◌, inl, inr, Option, none, some, List, [], ◌∷◌, ◌++◌, ◌==◌, ℤ, is_minus_one,
  Bool-cases,
}
use barry.DataQueue.{
  Buffer, DataQueue, raw_pop, size, raw_push, Event, pushed, woken, wait_loop, timed_wait, wait_pop,
  append_from,
}

-- `append_from` empties the other queue, and puts its elements behind ours in their order.
pub append_from-append : (us other : DataQueue) → append_from us other ≡ (us ++ other, [])
unfolding append_from raw_push
append_from-append us [] = rw (append-nil us)
append_from-append us (b ∷ other) =
    append_from-append (us ++ (b ∷ [])) other ∙ ap (λ t. (t, [])) (append_assoc us (b ∷ []) other)

-- The buffers that the other threads push, in their order.
abbrev pub arrivals : List Event → List Buffer
arrivals [] = []
arrivals (pushed b ∷ events) = b ∷ arrivals events
arrivals (woken ∷ events) = arrivals events

-- The popped element, if any, and what stays, in the order of the queue.
abbrev pub whole : Option Buffer × DataQueue → DataQueue
whole (none, q) = q
whole (some b, q) = b ∷ q

whole-raw_pop : (q : DataQueue) → whole (raw_pop q) ≡ q
unfolding raw_pop
whole-raw_pop [] = refl
whole-raw_pop (b ∷ q) = refl

-- `seen` is the part of the arrivals that came before the wait ended.
abbrev pub Waited : DataQueue → List Event → Option Buffer × DataQueue → Type 0
Waited q events r =
    (seen : List Buffer) × (later : List Buffer) × (whole r ≡ q ++ seen)
    × (arrivals events ≡ seen ++ later)

popped-Waited : (q : DataQueue) (events : List Event) → Waited q events (raw_pop q)
popped-Waited q events = ([], arrivals events, whole-raw_pop q ∙ sym (append-nil q), refl)

later-Waited :
    (q : DataQueue) (b : Buffer) (events : List Event) (r : Option Buffer × DataQueue)
    → Waited (raw_push q b) events r
    → Waited q (pushed b ∷ events) r
unfolding raw_push
later-Waited q b events r (seen, later, e, f) =
    (b ∷ seen, later, e ∙ append_assoc q (b ∷ []) seen, ap (λ t. b ∷ t) f)

wait_loop-Waited :
    (q : DataQueue) (events : List Event) (r : Option Buffer × DataQueue)
    → wait_loop q events ≡ some r
    → Waited q events r
unfolding wait_loop
wait_loop-Waited q [] r h = cc
wait_loop-Waited q (pushed b ∷ events) r h =
    later-Waited q b events r (wait_loop-Waited (raw_push q b) events r h)
wait_loop-Waited q (woken ∷ events) r h = elim (Bool-cases (size q == 0)) [
  | inl z ↦ wait_loop-Waited q events r (rw z at h)
  | inr z ↦
      let e : raw_pop q ≡ r = some-injective _ _ (rw z at h) in rw e at (popped-Waited q events)
]

timed_wait-Waited : (q : DataQueue) (events : List Event) → Waited q events (timed_wait q events)
unfolding timed_wait
timed_wait-Waited q [] = popped-Waited q []
timed_wait-Waited q (pushed b ∷ events) =
    later-Waited q b events (timed_wait (raw_push q b) events)
      (timed_wait-Waited (raw_push q b) events)
timed_wait-Waited q (woken ∷ events) = popped-Waited q events

-- Where a wait ends, what it returns and leaves is the front of the queue with the arrivals so far
-- behind it: nothing is lost, made up or reordered.
pub wait_pop-Waited :
    (q : DataQueue) (timeout : ℤ) (events : List Event) (r : Option Buffer × DataQueue)
    → wait_pop q timeout events ≡ some r
    → Waited q events r
unfolding wait_pop
wait_pop-Waited q timeout events r h = elim (Bool-cases (size q == 0)) [
  | inl z ↦ elim (Bool-cases (is_minus_one timeout)) [
    | inl forever ↦ wait_loop-Waited q events r (rw (z, forever) at h)
    | inr timed ↦
        let e : timed_wait q events ≡ r = some-injective _ _ (rw (z, timed) at h) in
        rw e at (timed_wait-Waited q events)
  ]
  | inr z ↦
      let e : raw_pop q ≡ r = some-injective _ _ (rw z at h) in rw e at (popped-Waited q events)
]
