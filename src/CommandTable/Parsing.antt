-- ===== src/CommandTable/Parsing.antt =====
-- `Parse` of src/r_command.cc on lists of fields.
use barry.Prelude.{
  ℕ, suc, ◌+◌, ◌<◌, ◌≡◌, sym, ap, ◌∙◌, false, some, List, [], ◌∷◌, ◌++◌, ltb, leb, ◌==◌, length,
  arith, All, take-append, drop-append, drop, length-append, length-drop, lt→ltb, leb→le,
  Bool-cases, inl, inr,
}
use mathlib.Core.List.{append-nil}
use barry.FieldLoop.{fields_of, add_all-append, field_loop_total, field_loop-fields_of}
use barry.CommandTable.{Command, command_field_size, parse_field, parse}

-- The bytes of a command's field, before `rest`.
abbrev pub field_of : Command → List ℕ → List ℕ
field_of c rest = length c.name ∷ c.code ∷ (c.name ++ rest)

-- The name fits the size byte, and is not empty.
pub record IsCommand (c : Command) : Type 0 where
  pub name_fits : length c.name < 256
  pub named : 0 < length c.name

parse_field-field_of :
    (commands : List Command) (c : Command) (rest : List ℕ)
    → IsCommand c
    → Path
        (List Command × List ℕ)
        (parse_field commands (field_of c rest))
        (commands ++ (c ∷ []), rest)
unfolding parse_field
parse_field-field_of commands c rest v =
    let long : ltb (suc (suc (length (c.name ++ rest)))) command_field_size ≡ false =
      ground (arith, length-append c.name rest, v.named) in
    let whole : ltb (suc (suc (length (c.name ++ rest)))) (2 + length c.name) ≡ false =
      ground (arith, length-append c.name rest) in
    let named : (length c.name == 0) ≡ false = ground (arith, v.named) in
    rw (long, whole, named, take-append c.name rest, drop-append c.name rest)

parse_field-cut :
    (cut : List ℕ) (commands : List Command)
    → length cut < command_field_size
    → Path (List Command × List ℕ) (parse_field commands cut) (commands, [])
unfolding parse_field
parse_field-cut cut commands h = rw (lt→ltb (length cut) command_field_size h)

length-field_of : (c : Command) (rest : List ℕ) → length rest < length (field_of c rest)
length-field_of c rest = omega (arith, length-append c.name rest)

parse_short :
    (commands cs : List Command) (cut : List ℕ)
    → length (fields_of field_of cs cut) ≡ 0
    → commands ≡ commands ++ cs
parse_short commands [] cut h = sym (append-nil commands)
parse_short commands (c ∷ cs) cut h = absurd (omega arith)

-- `Parse` skips the header, adds the commands that the fields behind it describe, in their order,
-- and leaves out a field that is cut off, where no name is empty or longer than 255 bytes.
pub parse-command_fields :
    (commands : List Command) (header : List ℕ) (cs : List Command) (cut : List ℕ)
    → All IsCommand cs
    → length cut < command_field_size
    → parse commands (header ++ fields_of field_of cs cut) (length header) ≡ some (commands ++ cs)
unfolding parse
parse-command_fields commands header cs cut v h =
    let body = fields_of field_of cs cut in
    elim (Bool-cases (leb (length (header ++ body)) (length header))) [
      | inl short ↦
          let none_left : length body ≡ 0 =
            omega (arith, leb→le _ _ short, length-append header body) in
          rw (parse, short) (ap some (parse_short commands cs cut none_left))
      | inr long ↦
          rw (parse, long, drop-append header body)
            (field_loop-fields_of parse_field IsCommand field_of (λ s c. s ++ (c ∷ []))
                length-field_of parse_field-field_of (length (header ++ body)) commands cs cut v
                (λ s. parse_field-cut cut s h) (omega (arith, length-append header body))
              ∙ ap some (add_all-append commands cs))
    ]

parse_field_shrinks :
    (commands : List Command) (b : ℕ) (bs : List ℕ)
    → length (parse_field commands (b ∷ bs)).1 < length (b ∷ bs)
unfolding parse_field
parse_field_shrinks commands b bs =
    ground (arith, length-drop b (drop 2 (b ∷ bs)), length-drop 2 (b ∷ bs))

-- `Parse` ends on any bytes.
pub parse_total :
    (commands : List Command) (bytes : List ℕ) (offset : ℕ)
    → (cs : List Command) × (parse commands bytes offset ≡ some cs)
unfolding parse
parse_total commands bytes offset = elim (Bool-cases (leb (length bytes) offset)) [
  | inl short ↦ (commands, rw (parse, short))
  | inr long ↦
      let (cs, done) =
        field_loop_total parse_field parse_field_shrinks (length bytes) commands (drop offset bytes)
          (omega (arith, length-drop offset bytes)) in
      (cs, rw (parse, long) done)
]
