-- ===== src/Fields/Sharing.antt =====
-- What the records share, read back from the fields that they write: the strings and categories of
-- src/record.cc, and the unknown fields.
use barry.Fields.Categories.{category_str2list, category_list2str}
use barry.Fields.Categories.Tokens.{IsCategory, category_str2list-category_list2str}
use barry.Fields.Reading.{IsField, take_all_fields}
use barry.Fields.Text.{categories_field, take_categories, taken_categories}
use barry.Fields.{
  CommonField, string_field, u8_field, u16_field, u32_field, u64_field, IConverter, from_device,
  to_device, text_field, last_kept, parse_field_string, parse_text, Taken, took, then_take,
}
use barry.Protocol.{get_u8}
use barry.Prelude.{
  ℕ, zero, suc, ◌+◌, ◌^◌, ◌<◌, ◌≤◌, ◌≡◌, refl, sym, ap, ◌∙◌, Option, List, [], ◌∷◌, ◌++◌, ◌==◌,
  if◌then◌else◌, length, take, get_or, All, arith, length-append, get_or-append_left, Bool, true,
  false,
}
use mathlib.Core.List.{append_assoc, append-nil}

get_or-last : (xs : List ℕ) (y : ℕ) → get_or (xs ++ (y ∷ [])) (length xs) 0 ≡ y
get_or-last [] y = refl
get_or-last (x ∷ xs) y = get_or-last xs y

take-append_left : (k : ℕ) (xs ys : List ℕ) → k ≤ length xs → take k (xs ++ ys) ≡ take k xs
take-append_left zero xs ys h = refl
take-append_left (suc k) [] ys h = absurd (omega arith)
take-append_left (suc k) (x ∷ xs) ys h = ap (◌∷◌ x) (take-append_left k xs ys (omega arith))

last_kept-append_left :
    (xs ys : List ℕ) (n : ℕ) → n ≤ length xs → last_kept (xs ++ ys) n ≡ last_kept xs n
last_kept-append_left xs ys zero h = refl
last_kept-append_left xs ys (suc n) h =
    rw (get_or-append_left xs ys n 0 (omega arith)) (
      ap (λ k. if get_u8 xs n == 0 then k else suc n) (last_kept-append_left xs ys n (omega arith)))

last_kept_le : (xs : List ℕ) (n : ℕ) → last_kept xs n ≤ n
last_kept_le xs zero = omega arith
last_kept_le xs (suc n) = ground (arith, last_kept_le xs n)

-- The null byte that the builder puts behind a string goes again.
parse_field_string-null : (s : List ℕ) → parse_field_string (s ++ (0 ∷ [])) ≡ parse_field_string s
unfolding parse_field_string
parse_field_string-null s =
    let size : length (s ++ (0 ∷ [])) ≡ suc (length s) = omega (arith, length-append s (0 ∷ [])) in
    rw (size, get_or-last s 0, last_kept-append_left s (0 ∷ []) (length s) (omega arith))
      (take-append_left (last_kept s (length s)) s (0 ∷ []) (last_kept_le s (length s)))

-- A string that the device can hold: its bytes there do not end in a null byte, they fit a field,
-- and they stand for the string.
pub record IsText (ic : Option IConverter) (s : List ℕ) : Type 0 where
  pub converts : from_device ic (to_device ic s) ≡ s
  pub no_null_end : parse_field_string (to_device ic s) ≡ to_device ic s
  pub fits : length (to_device ic s) + 1 < 2 ^ 16

module _ (ic : Option IConverter) (type : ℕ) (s : List ℕ) (v : IsText ic s) where
  pub parse_text-string_field : parse_text ic (string_field type (to_device ic s)).raw ≡ s
  unfolding parse_text string_field
  parse_text-string_field =
      ap (from_device ic) (parse_field_string-null (to_device ic s) ∙ v.no_null_end) ∙ v.converts

  pub string_field-IsField : type < 256 → IsField (string_field type (to_device ic s))
  unfolding string_field
  string_field-IsField h = record {
    type_fits = h;
    not_empty = omega (arith, length-append (to_device ic s) (0 ∷ []));
    size_fits = omega (arith, length-append (to_device ic s) (0 ∷ []), v.fits);
  }

module _ {ℓ} {S : Type ℓ} (take_field : S → ℕ → List ℕ → Taken S) (ic : Option IConverter)
    (type : ℕ) (s : S) where
  -- `set` gives the record its string.
  pub take-string_field :
      (set : List ℕ → S) (str : List ℕ)
      → ((raw : List ℕ) → take_field s type raw ≡ took (set (parse_text ic raw)))
      → IsText ic str
      → take_all_fields take_field s (string_field type (to_device ic str) ∷ []) ≡ took (set str)
  unfolding string_field
  take-string_field set str h v =
      ap (λ t. then_take t took)
        (h (to_device ic str ++ (0 ∷ []))
          ∙ ap (λ k. took (set k)) (parse_text-string_field ic type str v))

  -- A string that is not written stays cleared.
  pub take-text_field :
      (set : List ℕ → S) (str : List ℕ)
      → ((raw : List ℕ) → take_field s type raw ≡ took (set (parse_text ic raw)))
      → set [] ≡ s
      → IsText ic str
      → take_all_fields take_field s (text_field ic type str) ≡ took (set str)
  take-text_field set [] h c v = ap took (sym c)
  take-text_field set (x ∷ xs) h c v = take-string_field set (x ∷ xs) h v

  pub take-categories_field :
      (set : List (List ℕ) → S) (cs : List (List ℕ))
      → ((raw : List ℕ) → take_field s type raw ≡ take_categories ic raw set)
      → set [] ≡ s
      → All IsCategory cs
      → IsText ic (category_list2str cs)
      → take_all_fields take_field s (categories_field ic type cs) ≡ took (set cs)
  unfolding string_field take_categories
  take-categories_field set [] h c vs v = ap took (sym c)
  take-categories_field set (x ∷ xs) h c vs v =
      let str = category_list2str (x ∷ xs) in
      ap (λ t. then_take t took)
        (h (to_device ic str ++ (0 ∷ []))
          ∙ (ap (λ k. taken_categories (category_str2list k) set)
                (parse_text-string_field ic type str v)
              ∙ ap (λ k. taken_categories k set) (category_str2list-category_list2str (x ∷ xs) vs)))

module _ {ℓ} {S : Type ℓ} (take_field : S → ℕ → List ℕ → Taken S) (set : List CommonField → S)
    (Kept : CommonField → Type 0)
    (adds : (us : List CommonField) (f : CommonField)
      → Kept f
      → take_field (set us) f.type f.raw ≡ took (set (us ++ (f ∷ [])))) where
  pub take-unknowns :
      (us fs : List CommonField)
      → All Kept fs
      → take_all_fields take_field (set us) fs ≡ took (set (us ++ fs))
  take-unknowns us [] v = ap (λ k. took (set k)) (sym (append-nil us))
  take-unknowns us (f ∷ fs) (v, vs) =
      ap (λ t. then_take t (λ u. take_all_fields take_field u fs)) (adds us f v)
      ∙ (take-unknowns (us ++ (f ∷ [])) fs vs
          ∙ ap (λ k. took (set k)) (append_assoc us (f ∷ []) fs))

pub text_field-IsField :
    (ic : Option IConverter) (type : ℕ) (s : List ℕ)
    → type < 256
    → IsText ic s
    → All IsField (text_field ic type s)
text_field-IsField ic type [] h v = tt
text_field-IsField ic type (x ∷ xs) h v = (string_field-IsField ic type (x ∷ xs) v h, tt)

pub categories_field-IsField :
    (ic : Option IConverter) (type : ℕ) (cs : List (List ℕ))
    → type < 256
    → IsText ic (category_list2str cs)
    → All IsField (categories_field ic type cs)
categories_field-IsField ic type [] h v = tt
categories_field-IsField ic type (c ∷ cs) h v =
    (string_field-IsField ic type (category_list2str (c ∷ cs)) v h, tt)

-- The fields of a number.
pub u8_field-IsField : (type c : ℕ) → type < 256 → IsField (u8_field type c)
unfolding u8_field
u8_field-IsField type c h = record {
  type_fits = h;
  not_empty = omega arith;
  size_fits = omega arith;
}

pub u16_field-IsField : (type c : ℕ) → type < 256 → IsField (u16_field type c)
unfolding u16_field
u16_field-IsField type c h = record {
  type_fits = h;
  not_empty = omega arith;
  size_fits = omega arith;
}

pub u32_field-IsField : (type c : ℕ) → type < 256 → IsField (u32_field type c)
unfolding u32_field
u32_field-IsField type c h = record {
  type_fits = h;
  not_empty = omega arith;
  size_fits = omega arith;
}

pub u64_field-IsField : (type c : ℕ) → type < 256 → IsField (u64_field type c)
unfolding u64_field
u64_field-IsField type c h = record {
  type_fits = h;
  not_empty = omega arith;
  size_fits = omega arith;
}

pub optional-IsField :
    (b : Bool) (f : CommonField) → IsField f → All IsField (if b then f ∷ [] else [])
optional-IsField true f v = (v, tt)
optional-IsField false f v = tt
