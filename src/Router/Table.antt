-- ===== src/Router/Table.antt =====
-- `SocketQueueMap`, a std::map, as a list sorted by its keys, and its laws.
use barry.Prelude.{
  ℕ, suc, ◌≤◌, ◌<◌, ◌≡◌, refl, Option, none, some, List, [], ◌∷◌, ltb, ◌==◌, if◌then◌else◌, arith,
}

module _ {ℓ} {A : Type ℓ} where
  unfoldable pub find : ℕ → List (ℕ × A) → Option A
  find k [] = none
  find k ((j, a) ∷ m) = if j == k then some a else find k m

  -- `m[k] = a`.
  unfoldable pub store : ℕ → A → List (ℕ × A) → List (ℕ × A)
  store k a [] = (k, a) ∷ []
  store k a ((j, b) ∷ m) =
      if j == k then (k, a) ∷ m else if ltb k j then (k, a) ∷ (j, b) ∷ m else (j, b) ∷ store k a m

  unfoldable pub erase : ℕ → List (ℕ × A) → List (ℕ × A)
  erase k [] = []
  erase k ((j, b) ∷ m) = if j == k then m else (j, b) ∷ erase k m

  -- The keys rise along the list, from `n` on.
  abbrev pub SortedFrom : ℕ → List (ℕ × A) → Type 0
  SortedFrom n [] = Unit {0}
  SortedFrom n ((j, a) ∷ m) = (n ≤ j) × SortedFrom (suc j) m

module _ {ℓ} {A : Type ℓ} where
  pub SortedFrom-mono : (n k : ℕ) (m : List (ℕ × A)) → k ≤ n → SortedFrom n m → SortedFrom k m
  SortedFrom-mono n k [] h s = tt
  SortedFrom-mono n k ((j, a) ∷ m) h s = (omega arith, s.1)

  pub find_below : (n k : ℕ) (m : List (ℕ × A)) → SortedFrom n m → k < n → find k m ≡ none
  unfolding find
  find_below n k [] s h = refl
  find_below n k ((j, a) ∷ m) s h = ground (arith, find_below (suc j) k m s.1)

  pub find-store :
      (k j : ℕ) (a : A) (m : List (ℕ × A))
      → find j (store k a m) ≡ (if k == j then some a else find j m)
  unfolding find store
  find-store k j a [] = refl
  find-store k j a ((i, b) ∷ m) = ground (arith, find-store k j a m)

  pub find-erase :
      (n k j : ℕ) (m : List (ℕ × A))
      → SortedFrom n m
      → find j (erase k m) ≡ (if k == j then none else find j m)
  unfolding find erase
  find-erase n k j [] s = ground arith
  find-erase n k j ((i, b) ∷ m) s =
      ground (arith, find-erase (suc i) k j m s.1, find_below (suc i) j m s.1)

  pub store-SortedFrom :
      (n k : ℕ) (a : A) (m : List (ℕ × A)) → n ≤ k → SortedFrom n m → SortedFrom n (store k a m)
  unfolding store
  store-SortedFrom n k a [] h s = (h, tt)
  store-SortedFrom n k a ((j, b) ∷ m) h s = ground (arith, store-SortedFrom (suc j) k a m)

  pub erase-SortedFrom : (n k : ℕ) (m : List (ℕ × A)) → SortedFrom n m → SortedFrom n (erase k m)
  unfolding erase
  erase-SortedFrom n k [] s = tt
  erase-SortedFrom n k ((j, b) ∷ m) s =
      ground (arith, erase-SortedFrom (suc j) k m s.1, SortedFrom-mono (suc j) n m)
