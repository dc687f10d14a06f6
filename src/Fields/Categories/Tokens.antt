-- ===== src/Fields/Categories/Tokens.antt =====
-- CategoryStr2List on what CategoryList2Str makes of names, both of src/record.cc.
use barry.Protocol.{get_u8}
use barry.Fields.Categories.{
  comma, space, find_comma, skip_spaces, trim_end, Categories, categories, token_then, tokens_at,
  tokens_from, category_str2list, join, category_list2str,
}
use barry.Prelude.{
  ℕ, zero, suc, ◌+◌, ◌-◌, ◌<◌, ◌≤◌, ◌≡◌, ◌≢◌, refl, sym, ap, ◌∙◌, none, some, List, [], ◌∷◌, ◌++◌,
  leb, ◌==◌, true, false, length, drop, get_or, All, arith, length-append, get_or-append_left,
  take-append, All-append, drop-append, subst,
}
use mathlib.Core.List.{append_assoc, append-nil}

-- A name that a list of categories can hold: not empty, no space at either end, no comma.
pub record IsCategory (name : List ℕ) : Type 0 where
  pub not_empty : 0 < length name
  pub starts : get_or name 0 0 ≢ space
  pub ends : get_or name (length name - 1) 0 ≢ space
  pub no_comma : All (λ c. c ≢ comma) name

find_comma-append :
    (xs ys : List ℕ) (i : ℕ)
    → All (λ c. c ≢ comma) xs
    → find_comma (xs ++ ys) i ≡ find_comma ys (length xs + i)
find_comma-append [] ys i v = ap (find_comma ys) (omega arith)
find_comma-append (x ∷ xs) ys i (h, v) =
    let other : (x == comma) ≡ false = ground (arith, h) in
    rw other (find_comma-append xs ys (suc i) v ∙ ap (find_comma ys) (omega arith))

get_or-append : (xs ys : List ℕ) (k : ℕ) → get_or (xs ++ ys) (length xs + k) 0 ≡ get_or ys k 0
get_or-append [] ys k = ap (λ n. get_or ys n 0) (omega arith)
get_or-append (x ∷ xs) ys k =
    let more : suc (length xs) + k ≡ suc (length xs + k) = omega arith in
    rw more (get_or-append xs ys k)

trim_end-stays : (str : List ℕ) (e : ℕ) → get_u8 str e ≢ space → trim_end str e ≡ e
trim_end-stays str zero h = refl
trim_end-stays str (suc e) h =
    let other : (get_u8 str (suc e) == space) ≡ false = ground (arith, h) in rw other

skip_spaces-stays : (xs : List ℕ) (i : ℕ) → get_or xs 0 0 ≢ space → skip_spaces xs i ≡ i
skip_spaces-stays [] i h = refl
skip_spaces-stays (x ∷ xs) i h = let other : (x == space) ≡ false = ground (arith, h) in rw other

skip_spaces-append :
    (xs ys : List ℕ) (i : ℕ)
    → All (λ c. c ≡ space) xs
    → get_or ys 0 0 ≢ space
    → skip_spaces (xs ++ ys) i ≡ length xs + i
skip_spaces-append [] ys i v h = skip_spaces-stays ys i h ∙ omega arith
skip_spaces-append (x ∷ xs) ys i (e, v) h =
    let same : (x == space) ≡ true = ground (arith, e) in
    rw same (skip_spaces-append xs ys (suc i) v h ∙ omega arith)

spaces_no_comma : (xs : List ℕ) → All (λ c. c ≡ space) xs → All (λ c. c ≢ comma) xs
spaces_no_comma [] v = tt
spaces_no_comma (x ∷ xs) (e, v) = ((λ h. absurd (omega arith)), spaces_no_comma xs v)

-- A token of a string: the name behind the spaces that start at `length pre`.
module _ (pre pad c r : List ℕ) (spaces : All (λ k. k ≡ space) pad) (v : IsCategory c) where
  abbrev str : List ℕ
  str = (pre ++ pad) ++ (c ++ r)

  abbrev first : ℕ
  first = length (pre ++ pad)

  abbrev last : ℕ
  last = first + (length c - 1)

  drop-str : drop (length pre) str ≡ pad ++ (c ++ r)
  drop-str =
      ap (drop (length pre)) (append_assoc pre pad (c ++ r)) ∙ drop-append pre (pad ++ (c ++ r))

  starts-str : skip_spaces (drop (length pre) str) (length pre) ≡ first
  starts-str =
      ap (λ l. skip_spaces l (length pre)) drop-str
      ∙ (skip_spaces-append pad (c ++ r) (length pre) spaces
            (subst (λ k. k ≢ space) (sym (get_or-append_left c r 0 0 v.not_empty)) v.starts)
          ∙ omega (arith, length-append pre pad))

  ends-str : trim_end str last ≡ last
  ends-str = trim_end-stays str last (
      subst (λ k. k ≢ space)
        (sym (
          get_or-append (pre ++ pad) (c ++ r) (length c - 1)
          ∙ get_or-append_left c r (length c - 1) 0 (omega (arith, v.not_empty))))
        v.ends)

  token-str : (cs : List (List ℕ)) → token_then str first last (categories cs) ≡ categories (c ∷ cs)
  token-str cs =
      let inside : leb first last ≡ true = ground arith in
      let size : last - first + 1 ≡ length c = omega (arith, v.not_empty) in
      rw (inside, size, drop-append (pre ++ pad) (c ++ r), take-append c r)

  comma-str : find_comma (drop (length pre) str) (length pre) ≡ find_comma r (first + length c)
  comma-str =
      ap (λ l. find_comma l (length pre)) (drop-str ∙ sym (append_assoc pad c r))
      ∙ (find_comma-append (pad ++ c) r (length pre)
            (All-append (λ k. k ≢ comma) pad c (spaces_no_comma pad spaces) v.no_comma)
          ∙ ap (find_comma r) (omega (arith, length-append pre pad, length-append pad c)))

  turn-token :
      (rest : ℕ → Categories) (cs : List (List ℕ))
      → find_comma r (first + length c) ≡ some (first + length c)
      → rest (suc (first + length c)) ≡ categories cs
      → tokens_at str (length pre) (find_comma (drop (length pre) str) (length pre)) rest
        ≡ categories (c ∷ cs)
  turn-token rest cs h g =
      let at : suc last ≡ first + length c = omega (arith, v.not_empty) in
      let found : find_comma (drop (length pre) str) (length pre) ≡ some (suc last) =
        comma-str ∙ (h ∙ ap some (sym at)) in
      rw (found, starts-str, ends-str, ap (λ n. rest (suc n)) at ∙ g) (token-str cs)

  last_turn-token :
      (rest : ℕ → Categories)
      → r ≡ []
      → tokens_at str (length pre) (find_comma (drop (length pre) str) (length pre)) rest
        ≡ categories (c ∷ [])
  last_turn-token rest h =
      let none_found : find_comma (drop (length pre) str) (length pre) ≡ none =
        comma-str ∙ ap (λ l. find_comma l (first + length c)) h in
      let at : length str - 1 ≡ last =
        omega (
          arith,
          length-append (pre ++ pad) (c ++ r),
          length-append c r,
          ap length h,
          v.not_empty,
        ) in
      rw (none_found, starts-str, at, ends-str) (token-str [])

-- What stands behind the first name.
abbrev tail_of : List (List ℕ) → List ℕ
tail_of [] = []
tail_of (c ∷ cs) = comma ∷ space ∷ (c ++ tail_of cs)

fewer_names : (cs : List (List ℕ)) → length cs ≤ length (tail_of cs)
fewer_names [] = omega arith
fewer_names (c ∷ cs) = omega (arith, length-append c (tail_of cs), fewer_names cs)

join-tail_of :
    (s : ℕ) (str : List ℕ) (cs : List (List ℕ)) → join (s ∷ str) cs ≡ (s ∷ str) ++ tail_of cs
join-tail_of s str [] = sym (append-nil (s ∷ str))
join-tail_of s str (c ∷ cs) =
    join-tail_of s (str ++ (comma ∷ space ∷ c)) cs
    ∙ append_assoc (s ∷ str) (comma ∷ space ∷ c) (tail_of cs)

tokens-tail_of :
    (fuel : ℕ) (pre pad c : List ℕ) (cs : List (List ℕ))
    → All (λ k. k ≡ space) pad
    → IsCategory c
    → All IsCategory cs
    → length cs < fuel
    → tokens_from fuel ((pre ++ pad) ++ (c ++ tail_of cs)) (length pre) ≡ categories (c ∷ cs)
unfolding tokens_from
tokens-tail_of zero pre pad c cs spaces v vs h = absurd (omega arith)
tokens-tail_of (suc fuel) pre pad c [] spaces v vs h =
    last_turn-token pre pad c [] spaces v (tokens_from fuel ((pre ++ pad) ++ (c ++ []))) refl
tokens-tail_of (suc fuel) pre pad c (d ∷ ds) spaces v (w, vs) h =
    let r = tail_of (d ∷ ds) in
    let next = (pre ++ pad) ++ (c ++ (comma ∷ [])) in
    let x = space ∷ (d ++ tail_of ds) in
    let split : (next ++ (space ∷ [])) ++ (d ++ tail_of ds) ≡ (pre ++ pad) ++ (c ++ r) =
      append_assoc next (space ∷ []) (d ++ tail_of ds)
      ∙ (append_assoc (pre ++ pad) (c ++ (comma ∷ [])) x
          ∙ ap ((pre ++ pad) ++◌) (append_assoc c (comma ∷ []) x)) in
    let at : suc (length (pre ++ pad) + length c) ≡ length next =
      omega (arith, length-append (pre ++ pad) (c ++ (comma ∷ [])), length-append c (comma ∷ [])) in
    turn-token pre pad c r spaces v (tokens_from fuel ((pre ++ pad) ++ (c ++ r))) (d ∷ ds) refl (
      (λ i. tokens_from fuel (sym split i) (at i))
      ∙ tokens-tail_of fuel next (space ∷ []) d ds (refl, tt) w vs (omega arith))

-- Names that are not empty, without a comma and without a space at an end, come back from the
-- string that CategoryList2Str makes of them.
pub category_str2list-category_list2str :
    (cs : List (List ℕ))
    → All IsCategory cs
    → category_str2list (category_list2str cs) ≡ categories cs
unfolding category_str2list category_list2str
category_str2list-category_list2str [] v = refl
category_str2list-category_list2str ([] ∷ cs) (v, vs) = absurd (omega (arith, v.not_empty))
category_str2list-category_list2str ((k ∷ c) ∷ cs) (v, vs) =
    ap category_str2list (join-tail_of k c cs)
    ∙ tokens-tail_of (suc (length ((k ∷ c) ++ tail_of cs))) [] [] (k ∷ c) cs tt v vs
        (omega (arith, length-append c (tail_of cs), fewer_names cs))
