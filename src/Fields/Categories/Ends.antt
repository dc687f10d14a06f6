-- ===== src/Fields/Categories/Ends.antt =====
-- The loop of CategoryStr2List in src/record.cc, and its position in the string.
use barry.Fields.Categories.{
  comma, find_comma, skip_spaces, trim_end, Categories, categories, reads_outside, out_of_fuel,
  token_then, tokens_at, tokens_from, category_str2list,
}
use barry.Prelude.{
  ℕ, zero, suc, ◌+◌, ◌-◌, ◌<◌, ◌≤◌, ◌≡◌, ◌≢◌, refl, subst, Option, none, some, List, [], ◌∷◌, leb,
  ◌==◌, length, drop, arith, length-drop, Bool-cases, inl, inr,
}

-- Where a comma is found: in the characters that were looked through.
abbrev IsFound : List ℕ → ℕ → Option ℕ → Type 0
IsFound cs i none = Unit {0}
IsFound cs i (some d) = (i ≤ d) × (d < i + length cs)

find_comma-IsFound : (cs : List ℕ) (i : ℕ) → IsFound cs i (find_comma cs i)
find_comma-IsFound [] i = tt
find_comma-IsFound (c ∷ cs) i = elim (Bool-cases (c == comma)) [
  | inl here ↦ rw here (omega arith, omega arith)
  | inr later ↦ rw later (further (find_comma cs (suc i)) (find_comma-IsFound cs (suc i)))
]
  where
    further : (o : Option ℕ) → IsFound cs (suc i) o → IsFound (c ∷ cs) i o
    further none h = tt
    further (some d) (h, k) = (omega arith, omega arith)

token_then_enough :
    (str : List ℕ) (start end : ℕ) (cs : Categories)
    → cs ≢ out_of_fuel
    → token_then str start end cs ≢ out_of_fuel
token_then_enough str start end (categories cs) h e = elim (Bool-cases (leb start end)) [
  | inl t ↦ absurd (cc (t, e))
  | inr f ↦ absurd (cc (f, e))
]
token_then_enough str start end reads_outside h e = absurd (cc e)
token_then_enough str start end out_of_fuel h e = h e

tokens_at_enough :
    (str : List ℕ) (start : ℕ) (o : Option ℕ) (rest : ℕ → Categories)
    → ((d : ℕ) → o ≡ some d → rest (suc d) ≢ out_of_fuel)
    → tokens_at str start o rest ≢ out_of_fuel
tokens_at_enough str start none rest h =
    token_then_enough str (skip_spaces (drop start str) start) (trim_end str (length str - 1))
      (categories []) (λ e. absurd (cc e))
tokens_at_enough str start (some zero) rest h = λ e. absurd (cc e)
tokens_at_enough str start (some (suc d)) rest h =
    token_then_enough str (skip_spaces (drop start str) start) (trim_end str d) (rest (suc (suc d)))
      (h (suc d) refl)

tokens_from_enough :
    (fuel : ℕ) (str : List ℕ) (start : ℕ)
    → start ≤ length str
    → length str < fuel + start
    → tokens_from fuel str start ≢ out_of_fuel
unfolding tokens_from
tokens_from_enough zero str start h k = absurd (omega arith)
tokens_from_enough (suc fuel) str start h k =
    tokens_at_enough str start (find_comma (drop start str) start) (tokens_from fuel str) (λ d e.
      let found =
        subst (IsFound (drop start str) start) e (find_comma-IsFound (drop start str) start) in
      tokens_from_enough fuel str (suc d) (omega (arith, found, length-drop start str))
        (omega (arith, found)))

-- One turn more than there are characters is enough for the loop.
category_str2list_enough : (str : List ℕ) → category_str2list str ≢ out_of_fuel
unfolding category_str2list
category_str2list_enough [] = λ e. absurd (cc e)
category_str2list_enough (c ∷ cs) =
    tokens_from_enough (suc (length (c ∷ cs))) (c ∷ cs) 0 (omega arith) (omega arith)
