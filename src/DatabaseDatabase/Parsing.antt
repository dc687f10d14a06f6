-- ===== src/DatabaseDatabase/Parsing.antt =====
-- `Parse` of src/r_dbdb.cc on lists of fields, in both layouts.
use barry.Prelude.{
  ℕ, suc, ◌≤◌, ◌<◌, ◌≡◌, sym, ap, ◌∙◌, false, true, some, List, [], ◌∷◌, ◌++◌, ltb, ◌==◌, length,
  arith, All, drop-append, drop, length-append, length-drop, Bool-cases, inl, inr, refl, get_or,
  zero, if◌then◌else◌, Bool, Option,
}
use mathlib.Core.List.{append_assoc, append-nil}
use barry.Protocol.{get_u8}
use barry.Protocol.Operation
use barry.FieldLoop.{fields_of, add_all, field_loop_total, field_loop-fields_of}
use barry.DatabaseDatabase.{
  Database, FieldType, old_dbdb_field, dbdb_field, header_size, parse_field, parse_as, parse,
}
use barry.DatabaseDatabase.Field.{
  IsCut, Field, field_of, IsField, parse_field-field_of, length-field_of, parse_field-cut,
  parse_field_shrinks,
}

-- The operation that a response with such fields names.
abbrev pub operation : FieldType → ℕ
operation old_dbdb_field = Operation.old_get_dbdb
operation dbdb_field = Operation.get_dbdb

abbrev pub databases_of : List Field → List Database
databases_of [] = []
databases_of (f ∷ fs) = f.database ∷ databases_of fs

get_or-append : (xs ys : List ℕ) (i : ℕ) → i < length xs → get_or (xs ++ ys) i 0 ≡ get_or xs i 0
get_or-append [] ys i h = elim h [ ]
get_or-append (x ∷ xs) ys zero h = refl
get_or-append (x ∷ xs) ys (suc i) h = get_or-append xs ys i (omega arith)

add_all-databases :
    (ds : List Database) (fs : List Field)
    → add_all (λ (t : List Database) (f : Field). t ++ (f.database ∷ [])) ds fs
      ≡ ds ++ databases_of fs
add_all-databases ds [] = sym (append-nil ds)
add_all-databases ds (f ∷ fs) =
    add_all-databases (ds ++ (f.database ∷ [])) fs
    ∙ append_assoc ds (f.database ∷ []) (databases_of fs)

parse_as-fields_of :
    (type : FieldType) (ds : List Database) (header : List ℕ) (fs : List Field) (cut : List ℕ)
    → length header ≡ header_size type
    → All (IsField type) fs
    → IsCut type cut
    → parse_as type ds (header ++ fields_of (field_of type) fs cut) ≡ some (ds ++ databases_of fs)
unfolding parse_as
parse_as-fields_of type ds header fs cut l v h =
    let body = fields_of (field_of type) fs cut in
    let bytes = header ++ body in
    elim (Bool-cases (ltb (header_size type) (length bytes))) [
      | inl long ↦
          let rest : drop (header_size type) bytes ≡ body =
            ap (λ n. drop n bytes) (sym l) ∙ drop-append header body in
          rw (parse_as, long, rest)
            (field_loop-fields_of (parse_field type) (IsField type) (field_of type)
                (λ s f. s ++ (f.database ∷ [])) (length-field_of type) (parse_field-field_of type)
                (length bytes) ds fs cut v (λ s. parse_field-cut type cut s h)
                (omega (arith, length-append header body))
              ∙ ap some (add_all-databases ds fs))
      | inr short ↦
          rw (parse_as, short)
            (ap some (no_fields fs (ground (arith, short, length-append header body))))
    ]
  where
    no_fields :
        (gs : List Field)
        → length (fields_of (field_of type) gs cut) ≡ 0
        → ds ≡ ds ++ databases_of gs
    no_fields [] e = sym (append-nil ds)
    no_fields (g ∷ gs) e =
        absurd (omega (arith, length-field_of type g (fields_of (field_of type) gs cut)))

header_long : (type : FieldType) → 9 ≤ header_size type
header_long old_dbdb_field = omega arith
header_long dbdb_field = omega arith

by_operation :
    (type : FieldType) (ds : List Database) (bytes : List ℕ)
    → (if operation type == Operation.get_dbdb
        then parse_as dbdb_field ds bytes
        else if operation type == Operation.old_get_dbdb
        then parse_as old_dbdb_field ds bytes
        else some ds)
      ≡ parse_as type ds bytes
by_operation old_dbdb_field ds bytes = refl
by_operation dbdb_field ds bytes = refl

if_total {ℓ} :
    {A : Type ℓ} (b : Bool) {x y : Option A}
    → (a : A) × (x ≡ some a)
    → (a : A) × (y ≡ some a)
    → (a : A) × ((if b then x else y) ≡ some a)
if_total true p q = p
if_total false p q = q

-- `Parse` of a response adds the databases that the fields behind its header describe, in their
-- order, for the old and the new operation alike, where the numbers of each database fit its field,
-- and it leaves out a last field that is cut off within its header, right behind it, or within the
-- name whose size it says.
pub parse-database_fields :
    (type : FieldType) (ds : List Database) (header : List ℕ) (fs : List Field) (cut : List ℕ)
    → length header ≡ header_size type
    → get_u8 header 6 ≡ operation type
    → All (IsField type) fs
    → IsCut type cut
    → parse ds (header ++ fields_of (field_of type) fs cut) ≡ some (ds ++ databases_of fs)
unfolding parse
parse-database_fields type ds header fs cut l op v h =
    let body = fields_of (field_of type) fs cut in
    let long : ltb (length (header ++ body)) 7 ≡ false =
      ground (arith, length-append header body, header_long type) in
    let at : get_u8 (header ++ body) 6 ≡ operation type =
      get_or-append header body 6 (omega (arith, header_long type)) ∙ op in
    rw (parse, long, at)
      (by_operation type ds (header ++ body) ∙ parse_as-fields_of type ds header fs cut l v h)

parse_as_total :
    (type : FieldType) (ds : List Database) (bytes : List ℕ)
    → (ds' : List Database) × (parse_as type ds bytes ≡ some ds')
unfolding parse_as
parse_as_total type ds bytes =
    if_total (ltb (header_size type) (length bytes))
      (field_loop_total (parse_field type) (parse_field_shrinks type) (length bytes) ds
        (drop (header_size type) bytes) (omega (arith, length-drop (header_size type) bytes)))
      (ds, refl)

-- `Parse` ends on any bytes.
pub parse_total :
    (ds : List Database) (bytes : List ℕ) → (ds' : List Database) × (parse ds bytes ≡ some ds')
unfolding parse
parse_total ds bytes =
    if_total (ltb (length bytes) 7) (ds, refl)
      (if_total (get_u8 bytes 6 == Operation.get_dbdb) (parse_as_total dbdb_field ds bytes) (
        if_total (get_u8 bytes 6 == Operation.old_get_dbdb) (parse_as_total old_dbdb_field ds bytes)
          (ds, refl)))
