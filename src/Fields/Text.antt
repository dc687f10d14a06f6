-- ===== src/Fields/Text.antt =====
-- The parts that the records share: their strings, their categories and their unknown fields, as
-- in src/r_memo.cc, src/r_task.cc and src/r_calendar.cc.
use barry.Fields.Categories.{
  Categories, categories, reads_outside, out_of_fuel, category_str2list, category_list2str,
}
use barry.Fields.{
  CommonField, string_field, IConverter, to_device, parse_text, Taken, took, threw, outside_field,
}
use barry.Prelude.{ℕ, Option, List, [], ◌∷◌}

-- `if( Categories.size() )`: the field of the names.
abbrev pub categories_field : Option IConverter → ℕ → List (List ℕ) → List CommonField
categories_field ic type [] = []
categories_field ic type (c ∷ cs) =
    string_field type (to_device ic (category_list2str (c ∷ cs))) ∷ []

-- The fuel of `category_str2list` is enough for it, so the last case does not arise.
abbrev pub taken_categories {ℓ} : {S : Type ℓ} → Categories → (List (List ℕ) → S) → Taken S
taken_categories (categories cs) set = took (set cs)
taken_categories reads_outside set = threw outside_field
taken_categories out_of_fuel set = threw outside_field

-- `CategoryStr2List` of the string in the field, and what is done with the names.
unfoldable pub take_categories {ℓ} :
    {S : Type ℓ} → Option IConverter → List ℕ → (List (List ℕ) → S) → Taken S
unfolding category_str2list parse_text
take_categories ic raw set = taken_categories (category_str2list (parse_text ic raw)) set
