-- ===== src/Fields/Recurring.antt =====
-- The times and the recurrence of a record, as in src/r_task.cc and src/r_calendar.cc, with the
-- times of src/time.cc and the recurrence of src/r_recur_base.cc.
use barry.Fields.{CommonField, time_field, Taken, took, threw, not_enough_data, unknown_recurrence}
use barry.Protocol.{get_u32}
use barry.Recurrence
use barry.Recurrence.{
  RecurBase, Outcome, returned, Built, wrote, not_recurring, min2time, build_recurrence_data,
}
use barry.Prelude.{
  ℕ, zero, suc, Bool, true, false, List, [], ◌∷◌, ℤ, pos, negsuc, ◌==◌, if◌then◌else◌, length,
}

-- `TimeT::IsValid`, which is also the test `t.Time > 0`.
abbrev pub is_valid : ℤ → Bool
is_valid (pos zero) = false
is_valid (pos (suc n)) = true
is_valid (negsuc n) = false

abbrev pub optional_time_field : ℕ → ℤ → List CommonField
optional_time_field type t = if is_valid t then time_field type t ∷ [] else []

-- The field of the recurrence, where the record recurs.
abbrev pub recurrence_bytes : Built → List CommonField
recurrence_bytes (wrote bytes) =
    record { type = Recurrence.fieldcode_recurrence_data; raw = bytes } ∷ []
recurrence_bytes not_recurring = []

unfoldable pub recurrence_field : ℤ → RecurBase → List CommonField
unfolding build_recurrence_data
recurrence_field start r =
    if r.recurring then recurrence_bytes (build_recurrence_data start r) else []

module _ {ℓ} {S : Type ℓ} where
  -- A time that its member takes where the field has four bytes.
  unfoldable pub take_time : List ℕ → (ℤ → S) → Taken S → Taken S
  unfolding min2time
  take_time raw set other = if length raw == 4 then took (set (min2time (get_u32 raw 0))) else other

  -- What a record does with `RecurBase::ParseField`: an unknown field where it returns false.
  abbrev pub taken_recurrence : Outcome → (RecurBase → S) → S → Taken S
  taken_recurrence (returned true r) set unknown = took (set r)
  taken_recurrence (returned false r) set unknown = took unknown
  taken_recurrence (Outcome.not_enough_data r) set unknown = threw not_enough_data
  taken_recurrence (Outcome.unknown_type r) set unknown = threw unknown_recurrence
