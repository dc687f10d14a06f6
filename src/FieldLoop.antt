-- ===== src/FieldLoop.antt =====
-- `while( begin < end ) begin = ParseField(begin, end);`, the loop over the fields of a block.
--
-- `step` adds what the field at the front of the bytes describes, and leaves the bytes from the
-- pointer on that `ParseField` returns: none where that lies behind the end.
use barry.Prelude.{
  ℕ, zero, suc, ◌≤◌, ◌<◌, ◌≡◌, refl, sym, ap, ◌∙◌, Option, none, some, List, [], ◌∷◌, ◌++◌, arith,
  length, All,
}
use mathlib.Core.List.{append_assoc, append-nil}

-- `none`: the fuel ran out.
unfoldable pub field_loop {ℓ} : {S : Type ℓ} → (S → List ℕ → S × List ℕ) → ℕ → S → List ℕ → Option S
field_loop step fuel s [] = some s
field_loop step zero s (b ∷ bs) = none
field_loop step (suc fuel) s (b ∷ bs) = field_loop step fuel (step s (b ∷ bs)).0 (step s (b ∷ bs)).1

-- The fields of `xs` one behind the other, before `rest`.
abbrev pub fields_of {κ} : {X : Type κ} → (X → List ℕ → List ℕ) → List X → List ℕ → List ℕ
fields_of encode [] rest = rest
fields_of encode (x ∷ xs) rest = encode x (fields_of encode xs rest)

-- The state after the fields were added one by one.
abbrev pub add_all {ℓ κ} : {S : Type ℓ} {X : Type κ} → (S → X → S) → S → List X → S
add_all add s [] = s
add_all add s (x ∷ xs) = add_all add (add s x) xs

-- One behind the other, what was read is appended.
pub add_all-append {ℓ} :
    {A : Type ℓ} (s xs : List A) → add_all (λ (t : List A) (x : A). t ++ (x ∷ [])) s xs ≡ s ++ xs
add_all-append s [] = sym (append-nil s)
add_all-append s (x ∷ xs) = add_all-append (s ++ (x ∷ [])) xs ∙ append_assoc s (x ∷ []) xs

module _ {ℓ} {S : Type ℓ} (step : S → List ℕ → S × List ℕ) where
  pub field_loop_total :
      ((s : S) (b : ℕ) (bs : List ℕ) → length (step s (b ∷ bs)).1 < length (b ∷ bs))
      → (fuel : ℕ) (s : S) (bytes : List ℕ) → length bytes ≤ fuel
      → (s' : S) × (field_loop step fuel s bytes ≡ some s')
  unfolding field_loop
  field_loop_total shrinks fuel s [] h = (s, refl)
  field_loop_total shrinks zero s (b ∷ bs) h = absurd (omega arith)
  field_loop_total shrinks (suc fuel) s (b ∷ bs) h =
      field_loop_total shrinks fuel (step s (b ∷ bs)).0 (step s (b ∷ bs)).1
        (omega (arith, shrinks s b bs))

  field_loop-cut :
      (fuel : ℕ) (s : S) (cut : List ℕ)
      → Path (S × List ℕ) (step s cut) (s, [])
      → length cut ≤ fuel
      → field_loop step fuel s cut ≡ some s
  unfolding field_loop
  field_loop-cut fuel s [] h p = refl
  field_loop-cut zero s (b ∷ cut) h p = absurd (omega arith)
  field_loop-cut (suc fuel) s (b ∷ cut) h p = ap (λ q. field_loop step fuel q.0 q.1) h

  module _ {κ} {X : Type κ} (Fits : X → Type 0) (encode : X → List ℕ → List ℕ) (add : S → X → S)
      (nonempty : (x : X) (rest : List ℕ) → length rest < length (encode x rest))
      (reads : (s : S) (x : X) (rest : List ℕ)
        → Fits x
        → Path (S × List ℕ) (step s (encode x rest)) (add s x, rest)) where
    field_step :
        (fuel : ℕ) (s : S) (bytes rest : List ℕ) (s' : S)
        → length rest < length bytes
        → Path (S × List ℕ) (step s bytes) (s', rest)
        → field_loop step (suc fuel) s bytes ≡ field_loop step fuel s' rest
    unfolding field_loop
    field_step fuel s [] rest s' h e = absurd (omega arith)
    field_step fuel s (b ∷ bs) rest s' h e = ap (λ q. field_loop step fuel q.0 q.1) e

    pub field_loop-fields_of :
        (fuel : ℕ) (s : S) (xs : List X) (cut : List ℕ)
        → All Fits xs
        → ((s : S) → Path (S × List ℕ) (step s cut) (s, []))
        → length (fields_of encode xs cut) ≤ fuel
        → field_loop step fuel s (fields_of encode xs cut) ≡ some (add_all add s xs)
    field_loop-fields_of fuel s [] cut v h enough = field_loop-cut fuel s cut (h s) enough
    field_loop-fields_of zero s (x ∷ xs) cut v h enough =
        absurd (omega (arith, nonempty x (fields_of encode xs cut)))
    field_loop-fields_of (suc fuel) s (x ∷ xs) cut (v, vs) h enough =
        field_step fuel s (encode x (fields_of encode xs cut)) (fields_of encode xs cut) (add s x)
          (nonempty x (fields_of encode xs cut)) (reads s x (fields_of encode xs cut) v)
        ∙ field_loop-fields_of fuel (add s x) xs cut vs h
            (omega (arith, nonempty x (fields_of encode xs cut)))
