-- ===== src/RecordState/Parsing.antt =====
-- `Parse` of src/r_recordstate.cc on lists of fields.
use barry.Protocol.Numbers.{u16_read, u32_read}
use barry.Prelude.{
  ℕ, zero, suc, ◌%◌, ◌^◌, ◌≤◌, ◌<◌, ◌≡◌, refl, sym, ap, ◌∙◌, Bool, true, false, not, some, List, [],
  ◌∷◌, ◌++◌, ltb, leb, ◌==◌, if◌then◌else◌, length, arith, All, take, drop, take-append,
  drop-append, length-append, lt→ltb, leb→le, Bool-cases, inl, inr,
}
use barry.Protocol.{u16_bytes, u32_bytes}
use barry.Router.Table.{store}
use barry.RecordState.{
  State, RecordStateTable, field_size, state_of, parse_field, parse_loop, parse,
}

-- The bytes of the field that describes a state, before `rest`.
abbrev pub field_of : State → List ℕ → List ℕ
field_of s rest =
    s.rec_type
    ∷ (u16_bytes s.index
        ++ (u32_bytes s.record_id ++ ((if s.dirty then 1 else 0) ∷ (s.unknown2 ++ rest))))

-- The numbers fit their fields.
pub record IsState (s : State) : Type 0 where
  pub index_fits : s.index < 2 ^ 16
  pub id_fits : s.record_id < 2 ^ 32
  pub four : length s.unknown2 ≡ 4

dirty_read : (d : Bool) → not ((if d then 1 else 0) % 2 == 0) ≡ d
dirty_read true = refl
dirty_read false = refl

state-eq :
    (i j r k t : ℕ) (d e : Bool) (u w : List ℕ)
    → i ≡ j
    → r ≡ k
    → d ≡ e
    → u ≡ w
    → Path State
        (record { index = i; record_id = r; dirty = d; rec_type = t; unknown2 = u })
        (record { index = j; record_id = k; dirty = e; rec_type = t; unknown2 = w })
state-eq i j r k t d e u w p q o n = rw (p, q, o, n)

state_of-field_of : (s : State) (rest : List ℕ) → IsState s → state_of (field_of s rest) ≡ s
unfolding state_of
state_of-field_of s rest v =
    state-eq _ s.index _ s.record_id s.rec_type _ s.dirty _ s.unknown2
      (u16_read s.index v.index_fits) (u32_read s.record_id v.id_fits) (dirty_read s.dirty)
      (ap (λ n. take n (s.unknown2 ++ rest)) (sym v.four) ∙ take-append s.unknown2 rest)

abbrev pub fields_of : List State → List ℕ → List ℕ
fields_of [] rest = rest
fields_of (s ∷ ss) rest = field_of s (fields_of ss rest)

-- The table after the states were stored one by one.
abbrev pub store_all : RecordStateTable → List State → RecordStateTable
store_all t [] = t
store_all t (s ∷ ss) = store_all (record t { state_map = store s.index s t.state_map }) ss

drop-field_of : (s : State) (rest : List ℕ) → IsState s → drop field_size (field_of s rest) ≡ rest
drop-field_of s rest v =
    ap (λ n. drop n (s.unknown2 ++ rest)) (sym v.four) ∙ drop-append s.unknown2 rest

parse_loop-cut :
    (fuel : ℕ) (t : RecordStateTable) (cut : List ℕ)
    → length cut < field_size
    → 0 < fuel
    → parse_loop fuel t cut ≡ some t
unfolding parse_loop
parse_loop-cut fuel t [] h p = refl
parse_loop-cut zero t (b ∷ cut) h p = absurd (omega arith)
parse_loop-cut (suc fuel) t (b ∷ cut) h p = rw (parse_loop, lt→ltb (length (b ∷ cut)) field_size h)

parse_loop-fields :
    (fuel : ℕ) (t : RecordStateTable) (ss : List State) (cut : List ℕ)
    → All IsState ss
    → length cut < field_size
    → length ss < fuel
    → parse_loop fuel t (fields_of ss cut) ≡ some (store_all t ss)
unfolding parse_loop parse_field
parse_loop-fields fuel t [] cut v h enough = parse_loop-cut fuel t cut h (omega arith)
parse_loop-fields zero t (s ∷ ss) cut v h enough = absurd (omega arith)
parse_loop-fields (suc fuel) t (s ∷ ss) cut (v, vs) h enough =
    let rest = fields_of ss cut in
    let long : ltb (length (field_of s rest)) field_size ≡ false =
      ground (arith, length-append s.unknown2 rest, v.four) in
    rw (parse_loop, long, parse_field, state_of-field_of s rest v, drop-field_of s rest v)
      (parse_loop-fields fuel (record t { state_map = store s.index s t.state_map }) ss cut vs h
        (omega arith))

length-fields_of : (ss : List State) (cut : List ℕ) → length ss ≤ length (fields_of ss cut)
length-fields_of [] cut = omega arith
length-fields_of (s ∷ ss) cut =
    omega (arith, length-append s.unknown2 (fields_of ss cut), length-fields_of ss cut)

parse_short :
    (t : RecordStateTable) (header : List ℕ) (ss : List State) (cut : List ℕ)
    → length header ≡ 12
    → leb (length (header ++ fields_of ss cut)) 12 ≡ true
    → store_all t ss ≡ t
parse_short t header [] cut l h = refl
parse_short t header (s ∷ ss) cut l h =
    absurd (omega (arith, leb→le _ _ h, length-append header (fields_of (s ∷ ss) cut)))

-- `Parse` skips twelve bytes, stores the states that the fields behind them describe, in their
-- order, and leaves out a field that is cut off, where the numbers of each state fit its field.
pub parse-fields_of :
    (t : RecordStateTable) (header : List ℕ) (ss : List State) (cut : List ℕ)
    → length header ≡ 12
    → All IsState ss
    → length cut < field_size
    → parse t (header ++ fields_of ss cut) ≡ some (store_all t ss)
unfolding parse
parse-fields_of t header ss cut l v h =
    let bytes = header ++ fields_of ss cut in
    elim (Bool-cases (leb (length bytes) 12)) [
      | inl short ↦ rw (parse, short) (ap some (sym (parse_short t header ss cut l short)))
      | inr long ↦
          let body : drop 12 bytes ≡ fields_of ss cut =
            ap (λ n. drop n bytes) (sym l) ∙ drop-append header (fields_of ss cut) in
          let enough : length ss < length bytes =
            omega (arith, length-append header (fields_of ss cut), length-fields_of ss cut) in
          rw (parse, long, body) (parse_loop-fields (length bytes) t ss cut v h enough)
    ]
