-- ===== src/DatabaseDatabase/Field.antt =====
-- One field of the database list of src/r_dbdb.cc, in both layouts.
use barry.Protocol.Numbers.{u16_read, u32_read}
use barry.Prelude.{
  ℕ, suc, max, ◌+◌, ◌^◌, ◌≤◌, ◌<◌, ◌≡◌, sym, ap, ◌∙◌, false, List, [], ◌∷◌, ◌++◌, ltb, ◌==◌, length,
  arith, take-append, drop-append, drop, length-append, length-drop, ◌-◌, take, drop-drop,
}
use barry.Protocol.{get_u16, u16_bytes, u32_bytes}
use barry.DatabaseDatabase.{
  Database, FieldType, name_size_at, count_at, name_offset, old_dbdb_field, dbdb_field,
  sizeof_less_name, parse_field,
}

-- What a field holds: the database, and the parts that nobody reads.
pub record Field : Type 0 where
  pub database : Database
  pub unknown1 : ℕ
  pub db_size : ℕ
  pub unknown2 : ℕ

-- The bytes of a field, before `rest`. The size of the name counts the zero behind it.
abbrev pub field_of : FieldType → Field → List ℕ → List ℕ
field_of old_dbdb_field f rest =
    u16_bytes f.database.number
    ++ (f.unknown1
        ∷ (u32_bytes f.db_size
            ++ (u16_bytes f.database.record_count
                ++ (u16_bytes f.unknown2
                    ++ (u16_bytes (suc (length f.database.name))
                        ++ (f.database.name ++ (0 ∷ rest)))))))
field_of dbdb_field f rest =
    u16_bytes f.database.number
    ++ (f.unknown1
        ∷ (u32_bytes f.db_size
            ++ (u32_bytes f.database.record_count
                ++ (u16_bytes f.unknown2
                    ++ (u16_bytes (suc (length f.database.name))
                        ++ (0 ∷ (f.database.name ++ (0 ∷ 0 ∷ 0 ∷ rest))))))))

abbrev pub count_limit : FieldType → ℕ
count_limit old_dbdb_field = 2 ^ 16
count_limit dbdb_field = 2 ^ 32

-- The numbers fit their parts of the field.
pub record IsField (type : FieldType) (f : Field) : Type 0 where
  pub number_fits : f.database.number < 2 ^ 16
  pub count_fits : f.database.record_count < count_limit type
  pub name_fits : suc (length f.database.name) < 2 ^ 16

-- A field that is whole, and has a name.
parse_field_whole :
    (type : FieldType) (ds : List Database) (begin : List ℕ) (n : ℕ)
    → name_size_at type begin ≡ suc n
    → sizeof_less_name type + suc n ≤ length begin
    → parse_field type ds begin ≡ (
      ds
          ++ (record {
            number = get_u16 begin 0;
            record_count = count_at type begin;
            name = take n (drop (name_offset type) begin);
          }
              ∷ []),
      drop (suc n) (drop (sizeof_less_name type) begin),
    )
unfolding parse_field
parse_field_whole type ds begin n e h =
    let long : ltb (length begin) (sizeof_less_name type + 1) ≡ false = ground arith in
    let whole : ltb (length begin) (sizeof_less_name type + suc n) ≡ false = ground arith in
    let named : (suc n == 0) ≡ false = ground arith in
    let less : suc n - 1 ≡ n = omega arith in rw (parse_field, long, e, whole, named, less)

Database-eq :
    (i j c d : ℕ) (m n : List ℕ)
    → i ≡ j
    → c ≡ d
    → m ≡ n
    → Path Database
        (record { number = i; record_count = c; name = m })
        (record { number = j; record_count = d; name = n })
Database-eq i j c d m n p q r = rw (p, q, r)

drop-append_add :
    (k : ℕ) (xs zs rest : List ℕ) → k ≡ length xs + length zs → drop k (xs ++ (zs ++ rest)) ≡ rest
drop-append_add k xs zs rest e =
    ap (λ n. drop n (xs ++ (zs ++ rest))) e
    ∙ (sym (drop-drop (length xs) (length zs) (xs ++ (zs ++ rest)))
        ∙ (ap (drop (length zs)) (drop-append xs (zs ++ rest)) ∙ drop-append zs rest))

pair-eq {ℓ κ} :
    {A : Type ℓ} {B : Type κ} (a a' : A) (b b' : B) → a ≡ a' → b ≡ b' → Path (A × B) (a, b) (a', b')
pair-eq a a' b b' p q = λ i. (p i, q i)

pub parse_field-field_of :
    (type : FieldType) (ds : List Database) (f : Field) (rest : List ℕ)
    → IsField type f
    → Path
        (List Database × List ℕ)
        (parse_field type ds (field_of type f rest))
        (ds ++ (f.database ∷ []), rest)
parse_field-field_of old_dbdb_field ds f rest v =
    let d = f.database in
    parse_field_whole old_dbdb_field ds (field_of old_dbdb_field f rest) (length d.name)
      (u16_read (suc (length d.name)) v.name_fits) (omega (arith, length-append d.name (0 ∷ rest)))
    ∙ pair-eq _ _ _ _
        (ap (λ c. ds ++ (c ∷ []))
          (Database-eq _ d.number _ d.record_count _ d.name (u16_read d.number v.number_fits)
            (u16_read d.record_count v.count_fits) (take-append d.name (0 ∷ rest))))
        (drop-append_add (suc (length d.name)) d.name (0 ∷ []) rest (omega arith))
parse_field-field_of dbdb_field ds f rest v =
    let d = f.database in
    let behind = d.name ++ (0 ∷ 0 ∷ 0 ∷ rest) in
    parse_field_whole dbdb_field ds (field_of dbdb_field f rest) (length d.name)
      (u16_read (suc (length d.name)) v.name_fits)
      (omega (arith, length-append d.name (0 ∷ 0 ∷ 0 ∷ rest)))
    ∙ pair-eq _ _ _ _
        (ap (λ c. ds ++ (c ∷ []))
          (Database-eq _ d.number _ d.record_count _ d.name (u16_read d.number v.number_fits)
            (u32_read d.record_count v.count_fits) (take-append d.name (0 ∷ 0 ∷ 0 ∷ rest))))
        (drop-drop 2 (suc (length d.name)) behind
          ∙ drop-append_add (2 + suc (length d.name)) d.name (0 ∷ 0 ∷ 0 ∷ []) rest (omega arith))

pub length-field_of :
    (type : FieldType) (f : Field) (rest : List ℕ) → length rest < length (field_of type f rest)
length-field_of old_dbdb_field f rest = omega (arith, length-append f.database.name (0 ∷ rest))
length-field_of dbdb_field f rest = omega (arith, length-append f.database.name (0 ∷ 0 ∷ 0 ∷ rest))

-- The bytes of a field that ends before its name begins, or before as much of it as the size in its
-- header says.
abbrev pub IsCut : FieldType → List ℕ → Type 0
IsCut type cut = length cut < sizeof_less_name type + max 1 (name_size_at type cut)

pub parse_field-cut :
    (type : FieldType) (cut : List ℕ) (ds : List Database)
    → IsCut type cut
    → Path (List Database × List ℕ) (parse_field type ds cut) (ds, [])
unfolding parse_field
parse_field-cut type cut ds h = ground arith

pub parse_field_shrinks :
    (type : FieldType) (ds : List Database) (b : ℕ) (bs : List ℕ)
    → length (parse_field type ds (b ∷ bs)).1 < length (b ∷ bs)
unfolding parse_field
parse_field_shrinks old_dbdb_field ds b bs = ground (
  arith,
  length-drop (name_size_at old_dbdb_field (b ∷ bs)) (drop 13 (b ∷ bs)),
  length-drop 13 (b ∷ bs),
)
parse_field_shrinks dbdb_field ds b bs = ground (
  arith,
  length-drop (name_size_at dbdb_field (b ∷ bs)) (drop 18 (b ∷ bs)),
  length-drop 18 (b ∷ bs),
)
