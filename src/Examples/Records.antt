-- ===== src/Examples/Records.antt =====
-- Examples on the record state table.
use barry.Prelude.{arith, ℕ, ◌≡◌, refl, true, none, some, [], ◌∷◌, ◌++◌, replicate}
use barry.RecordState.{State, RecordStateTable, get_index, make_new_record_id, parse}
use barry.RecordState.Fresh.{make_new_record_id-get_index}
use barry.RecordState.Parsing.{IsState, fields_of, store_all, parse-fields_of}

abbrev state : ℕ → ℕ → State
state index id = record {
  index = index;
  record_id = id;
  dirty = true;
  rec_type = 2;
  unknown2 = 1 ∷ 2 ∷ 3 ∷ 4 ∷ [];
}

-- The next ids are taken.
abbrev table : RecordStateTable
table = record { state_map = (0, state 0 3) ∷ (1, state 1 2) ∷ []; last_new_record_id = 1 }

make_new_record_id-get_index_example :
    (id : ℕ) × (make_new_record_id table ≡ some (id, record table { last_new_record_id = id }))
    × (get_index id table.state_map ≡ none)
make_new_record_id-get_index_example = make_new_record_id-get_index table (omega arith)

state-IsState : IsState (state 5 77)
state-IsState = record { index_fits = omega arith; id_fits = omega arith; four = refl }

parse-fields_of_example :
    parse table (replicate 12 0 ++ fields_of (state 5 77 ∷ []) (9 ∷ 9 ∷ []))
    ≡ some (store_all table (state 5 77 ∷ []))
parse-fields_of_example =
    parse-fields_of table (replicate 12 0) (state 5 77 ∷ []) (9 ∷ 9 ∷ []) refl (state-IsState, tt)
      (omega arith)
