-- ===== src/Contact/Links.antt =====
-- The dates and group links of a contact, src/record.h and src/protostructs.h, and its link table,
-- src/r_contact.cc.
use barry.Prelude.{
  ℕ, Bool, true, false, not, ◌||◌, Option, none, some, List, [], ◌∷◌, ◌==◌, if◌then◌else◌, ℤ, pos,
  negsuc,
}

pub record Date : Type 0 where
  pub month : ℤ
  pub day : ℤ
  pub year : ℤ

abbrev pub no_date : Date
no_date = record { month = pos 0; day = pos 0; year = pos 0 }

abbrev pub is_zero : ℤ → Bool
is_zero (pos n) = n == 0
is_zero (negsuc n) = false

abbrev pub has_data : Date → Bool
has_data d = not (is_zero d.month) || (not (is_zero d.day) || not (is_zero d.year))

-- `ToBBString`, and `FromBBString`, which leaves the date alone where it returns false.
pub record DateFormat : Type 0 where
  pub to_bb_string : Date → List ℕ
  pub from_bb_string : List ℕ → Option Date

pub record GroupLink : Type 0 where
  pub link : ℕ
  pub unknown : ℕ

-- An entry of the link table: the code of a string, and whether it is converted.
pub record Link : Type 0 where
  pub code : ℕ
  pub iconv_needed : Bool

abbrev link : ℕ → Link
link c = record { code = c; iconv_needed = true }

abbrev raw_link : ℕ → Link
raw_link c = record { code = c; iconv_needed = false }

abbrev pub links : List Link
links =
    link 86
    ∷ link 2
    ∷ link 3
    ∷ link 20
    ∷ link 6
    ∷ link 7
    ∷ link 8
    ∷ link 19
    ∷ link 9
    ∷ link 10
    ∷ link 14
    ∷ link 16
    ∷ link 17
    ∷ link 18
    ∷ link 33
    ∷ link 34
    ∷ link 35
    ∷ link 36
    ∷ link 37
    ∷ link 38
    ∷ link 39
    ∷ link 40
    ∷ link 41
    ∷ link 42
    ∷ raw_link 43
    ∷ link 54
    ∷ link 55
    ∷ link 61
    ∷ link 62
    ∷ link 63
    ∷ link 64
    ∷ link 65
    ∷ link 66
    ∷ link 67
    ∷ link 68
    ∷ link 69
    ∷ link 70
    ∷ link 71
    ∷ link 72
    ∷ raw_link 77
    ∷ []

abbrev pub find_link : ℕ → List Link → Option Link
find_link type [] = none
find_link type (l ∷ ls) = if l.code == type then some l else find_link type ls
