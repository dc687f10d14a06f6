-- ===== src/RecordState/Fresh.antt =====
-- `MakeNewRecordId` ends, with an id that no state has.
use mathlib.Core.Option.{some-injective}
use barry.Prelude.{
  ℕ, zero, suc, ◌+◌, ◌%◌, ◌^◌, ◌≤◌, ◌<◌, ◌≡◌, refl, sym, ◌∙◌, inl, inr, true, false, none, some,
  List, [], ◌∷◌, ◌==◌, if◌then◌else◌, length, arith, Bool-cases,
}
use barry.RecordState.{State, RecordStateTable, get_index, is_taken, next_free, make_new_record_id}

-- The map without the states of a record.
abbrev without : ℕ → List (ℕ × State) → List (ℕ × State)
without id [] = []
without id ((k, s) ∷ m) = if id == s.record_id then without id m else (k, s) ∷ without id m

length-without : (id : ℕ) (m : List (ℕ × State)) → length (without id m) ≤ length m
length-without id [] = omega arith
length-without id ((k, s) ∷ m) = ground (arith, length-without id m)

taken_shorter :
    (id : ℕ) (m : List (ℕ × State)) → is_taken id m ≡ true → length (without id m) < length m
unfolding is_taken
taken_shorter id [] h = cc
taken_shorter id ((k, s) ∷ m) h = ground (arith, length-without id m, taken_shorter id m)

is_taken-without :
    (id j : ℕ) (m : List (ℕ × State)) → (j == id) ≡ false → is_taken j (without id m) ≡ is_taken j m
unfolding is_taken
is_taken-without id j [] h = refl
is_taken-without id j ((k, s) ∷ m) h = elim (Bool-cases (id == s.record_id)) [
  | inl e ↦
      let other : (j == s.record_id) ≡ false = ground arith in
      rw (e, other) (is_taken-without id j m h)
  | inr n ↦ ground (arith, is_taken-without id j m h)
]

-- The id `n` steps behind another.
abbrev ahead : ℕ → ℕ → ℕ
ahead id n = (id + n) % 2 ^ 32

next_free-without :
    (fuel id n : ℕ) (m : List (ℕ × State))
    → id < 2 ^ 32
    → 0 < n
    → n + fuel ≤ 2 ^ 32
    → next_free fuel (ahead id n) (without id m) ≡ next_free fuel (ahead id n) m
unfolding next_free
next_free-without zero id n m small pos fits = refl
next_free-without (suc fuel) id n m small pos fits =
    let step : (ahead id n + 1) % 2 ^ 32 ≡ ahead id (n + 1) = omega arith in
    let other : (ahead id n == id) ≡ false = ground arith in
    rw (
      next_free,
      is_taken-without id (ahead id n) m other,
      step,
      next_free-without fuel id (n + 1) m small (omega arith) (omega arith),
    )

next_free-is_taken :
    (fuel id k : ℕ) (m : List (ℕ × State)) → next_free fuel id m ≡ some k → is_taken k m ≡ false
unfolding next_free
next_free-is_taken zero id k m h = cc
next_free-is_taken (suc fuel) id k m h = elim (Bool-cases (is_taken id m)) [
  | inl taken ↦ next_free-is_taken fuel ((id + 1) % 2 ^ 32) k m (rw taken at h)
  | inr free ↦ let e : id ≡ k = some-injective _ _ (rw free at h) in rw (← e) free
]

get_index-is_taken : (id : ℕ) (m : List (ℕ × State)) → is_taken id m ≡ false → get_index id m ≡ none
unfolding get_index is_taken
get_index-is_taken id [] h = refl
get_index-is_taken id ((k, s) ∷ m) h = ground (arith, get_index-is_taken id m)

-- The id that the loop finds.
abbrev Finds : ℕ → ℕ → List (ℕ × State) → Type 0
Finds fuel id m = (k : ℕ) × (next_free fuel id m ≡ some k)

finds :
    (fuel id : ℕ) (m : List (ℕ × State))
    → id < 2 ^ 32
    → length m < fuel
    → fuel ≤ 2 ^ 32
    → Finds fuel id m
unfolding next_free
finds zero id m small enough fits = absurd (omega arith)
finds (suc fuel) id m small enough fits = elim (Bool-cases (is_taken id m)) [
  | inl taken ↦
      let fewer = taken_shorter id m taken in
      let (k, e) =
        finds fuel (ahead id 1) (without id m) (omega arith) (omega (arith, fewer)) (omega arith) in
      let found : next_free fuel (ahead id 1) m ≡ some k =
        sym (next_free-without fuel id 1 m small (omega arith) (omega arith)) ∙ e in
      (k, rw (next_free, taken) found)
  | inr free ↦ (id, rw (next_free, free))
]

-- Where the table has fewer than 2 ^ 32 states, `MakeNewRecordId` ends, keeps the id that it returns
-- as the last one, and changes nothing else; `GetIndex` finds no state with that id.
pub make_new_record_id-get_index :
    (t : RecordStateTable)
    → length t.state_map < 2 ^ 32
    → (id : ℕ) × (make_new_record_id t ≡ some (id, record t { last_new_record_id = id }))
      × (get_index id t.state_map ≡ none)
unfolding make_new_record_id
make_new_record_id-get_index t small =
    let start = (t.last_new_record_id + 1) % 2 ^ 32 in
    let (id, e) =
      finds (suc (length t.state_map)) start t.state_map (omega arith) (omega arith)
        (omega arith) in
    (
      id,
      rw (make_new_record_id, e),
      get_index-is_taken id t.state_map
          (next_free-is_taken (suc (length t.state_map)) start id t.state_map e),
    )
