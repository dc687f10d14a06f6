-- ===== src/Prelude/Lists.antt =====
-- Lists measured and indexed by native numbers, and blocks of memory as lists of bytes.
use Prim.Native.Nat.{ℕ, zero, suc, ◌+◌, ◌-◌, ◌≤◌, ◌<◌, min}
use Prim.Native.Nat.add
use mathlib.Core.Path.{◌≡◌, refl, ap}
use mathlib.Core.List.{List, [], ◌∷◌, ◌++◌}
use native.Mathlib.Omega.{arith}

module _ {ℓ} {A : Type ℓ} where
  abbrev pub length : List A → ℕ
  length [] = 0
  length (x ∷ xs) = suc (length xs)

  abbrev pub get_or : List A → ℕ → A → A
  get_or [] i d = d
  get_or (x ∷ xs) zero d = x
  get_or (x ∷ xs) (suc i) d = get_or xs i d

  abbrev pub take : ℕ → List A → List A
  take zero xs = []
  take (suc n) [] = []
  take (suc n) (x ∷ xs) = x ∷ take n xs

  abbrev pub drop : ℕ → List A → List A
  drop zero xs = xs
  drop (suc n) [] = []
  drop (suc n) (x ∷ xs) = drop n xs

  abbrev pub replicate : ℕ → A → List A
  replicate zero a = []
  replicate (suc n) a = a ∷ replicate n a

  -- What `memcpy` makes of the block `l` when the bytes land at the offset `o`. What would lie
  -- behind the end of the block is dropped, so every caller tests the bounds first.
  abbrev pub splice : List A → ℕ → List A → List A
  splice [] o bs = []
  splice (x ∷ l) (suc o) bs = x ∷ splice l o bs
  splice (x ∷ l) zero [] = x ∷ l
  splice (x ∷ l) zero (b ∷ bs) = b ∷ splice l zero bs

  abbrev pub All {κ} : (A → Type κ) → List A → Type κ
  All P [] = Unit {κ}
  All P (x ∷ xs) = P x × All P xs

pub All-append {ℓ κ} :
    {A : Type ℓ} (P : A → Type κ) (xs ys : List A) → All P xs → All P ys → All P (xs ++ ys)
All-append P [] ys v w = w
All-append P (x ∷ xs) ys (h, v) w = (h, All-append P xs ys v w)

module _ {ℓ} {A : Type ℓ} where
  pub length-append : (xs ys : List A) → length (xs ++ ys) ≡ length xs + length ys
  length-append [] ys = omega arith
  length-append (x ∷ xs) ys = omega (arith, length-append xs ys)

  pub length-take : (n : ℕ) (xs : List A) → length (take n xs) ≡ min n (length xs)
  length-take zero xs = omega arith
  length-take (suc n) [] = omega arith
  length-take (suc n) (x ∷ xs) = omega (arith, length-take n xs)

  pub length-drop : (n : ℕ) (xs : List A) → length (drop n xs) ≡ length xs - n
  length-drop zero xs = omega arith
  length-drop (suc n) [] = omega arith
  length-drop (suc n) (x ∷ xs) = omega (arith, length-drop n xs)

  pub length-replicate : (n : ℕ) (a : A) → length (replicate n a) ≡ n
  length-replicate zero a = refl
  length-replicate (suc n) a = ap suc (length-replicate n a)

  pub length-splice : (l : List A) (o : ℕ) (bs : List A) → length (splice l o bs) ≡ length l
  length-splice [] o bs = refl
  length-splice (x ∷ l) (suc o) bs = ap suc (length-splice l o bs)
  length-splice (x ∷ l) zero [] = refl
  length-splice (x ∷ l) zero (b ∷ bs) = ap suc (length-splice l zero bs)

  pub take-append-drop : (n : ℕ) (xs : List A) → take n xs ++ drop n xs ≡ xs
  take-append-drop zero xs = refl
  take-append-drop (suc n) [] = refl
  take-append-drop (suc n) (x ∷ xs) = ap (◌∷◌ x) (take-append-drop n xs)

  pub take_all : (n : ℕ) (xs : List A) → length xs ≤ n → take n xs ≡ xs
  take_all zero [] h = refl
  take_all zero (x ∷ xs) h = absurd (omega arith)
  take_all (suc n) [] h = refl
  take_all (suc n) (x ∷ xs) h = ap (◌∷◌ x) (take_all n xs (omega arith))

  pub drop_all : (n : ℕ) (xs : List A) → length xs ≤ n → drop n xs ≡ []
  drop_all zero [] h = refl
  drop_all zero (x ∷ xs) h = absurd (omega arith)
  drop_all (suc n) [] h = refl
  drop_all (suc n) (x ∷ xs) h = drop_all n xs (omega arith)

  pub take-append : (xs ys : List A) → take (length xs) (xs ++ ys) ≡ xs
  take-append [] ys = refl
  take-append (x ∷ xs) ys = ap (◌∷◌ x) (take-append xs ys)

  pub drop-append : (xs ys : List A) → drop (length xs) (xs ++ ys) ≡ ys
  drop-append [] ys = refl
  drop-append (x ∷ xs) ys = drop-append xs ys

  pub drop-nil : (n : ℕ) → drop {A = A} n [] ≡ []
  drop-nil zero = refl
  drop-nil (suc n) = refl

  pub drop-drop : (m n : ℕ) (xs : List A) → drop n (drop m xs) ≡ drop (m + n) xs
  drop-drop zero n xs = rw add.zero
  drop-drop (suc m) n [] = rw (drop-nil n, drop-nil (suc m + n))
  drop-drop (suc m) n (x ∷ xs) = rw add.suc (drop-drop m n xs)

  -- A block read from `s` on, after bytes were put behind `s`.
  pub drop-splice :
      (s o : ℕ) (l bs : List A) → drop s (splice l (s + o) bs) ≡ splice (drop s l) o bs
  drop-splice zero o l bs = rw add.zero
  drop-splice (suc s) o [] bs = refl
  drop-splice (suc s) o (x ∷ l) bs = rw add.suc (drop-splice s o l bs)

  pub splice-zero :
      (l bs : List A) → length bs ≤ length l → splice l 0 bs ≡ bs ++ drop (length bs) l
  splice-zero [] [] h = refl
  splice-zero [] (b ∷ bs) h = absurd (omega arith)
  splice-zero (x ∷ l) [] h = refl
  splice-zero (x ∷ l) (b ∷ bs) h = ap (◌∷◌ b) (splice-zero l bs (omega arith))

  pub splice-nil : (l : List A) (o : ℕ) → splice l o [] ≡ l
  splice-nil [] o = refl
  splice-nil (x ∷ l) (suc o) = ap (◌∷◌ x) (splice-nil l o)
  splice-nil (x ∷ l) zero = refl

  pub splice-splice :
      (l : List A) (o : ℕ) (xs ys : List A)
      → splice (splice l o xs) (o + length xs) ys ≡ splice l o (xs ++ ys)
  splice-splice [] o xs ys = refl
  splice-splice (x ∷ l) (suc o) xs ys = rw add.suc (ap (◌∷◌ x) (splice-splice l o xs ys))
  splice-splice (x ∷ l) zero [] ys = refl
  splice-splice (x ∷ l) zero (y ∷ xs) ys =
      rw add.zero (ap (◌∷◌ y) (rw add.zero at (splice-splice l zero xs ys)))

  pub splice-eq :
      (o : ℕ) (l bs : List A)
      → o + length bs ≤ length l
      → splice l o bs ≡ take o l ++ (bs ++ drop (o + length bs) l)
  splice-eq zero l bs h = rw add.zero (splice-zero l bs (omega arith))
  splice-eq (suc o) [] bs h = absurd (omega arith)
  splice-eq (suc o) (x ∷ l) bs h = rw add.suc (ap (◌∷◌ x) (splice-eq o l bs (omega arith)))

  -- Bytes that were put into a block are read back from the same place.
  pub take-drop-splice :
      (o : ℕ) (l bs : List A)
      → o + length bs ≤ length l
      → take (length bs) (drop o (splice l o bs)) ≡ bs
  take-drop-splice zero l bs h =
      rw (splice-zero l bs (omega arith)) (take-append bs (drop (length bs) l))
  take-drop-splice (suc o) [] bs h = absurd (omega arith)
  take-drop-splice (suc o) (x ∷ l) bs h = take-drop-splice o l bs (omega arith)

  pub take-append_add : (n : ℕ) (xs ys : List A) → take (length xs + n) (xs ++ ys) ≡ xs ++ take n ys
  take-append_add n [] ys = rw add.zero
  take-append_add n (x ∷ xs) ys = rw add.suc (ap (◌∷◌ x) (take-append_add n xs ys))

  pub take-drop : (m n : ℕ) (xs : List A) → take n (drop m xs) ≡ drop m (take (m + n) xs)
  take-drop zero n xs = rw add.zero
  take-drop (suc m) zero [] = rw add.suc
  take-drop (suc m) (suc n) [] = rw add.suc
  take-drop (suc m) n (x ∷ xs) = rw add.suc (take-drop m n xs)

  pub take-take : (m n : ℕ) (xs : List A) → m ≤ n → take m (take n xs) ≡ take m xs
  take-take zero n xs h = refl
  take-take (suc m) zero xs h = absurd (omega arith)
  take-take (suc m) (suc n) [] h = refl
  take-take (suc m) (suc n) (x ∷ xs) h = ap (◌∷◌ x) (take-take m n xs (omega arith))

  pub drop-take_self : (n : ℕ) (xs : List A) → drop n (take n xs) ≡ []
  drop-take_self n xs = drop_all n (take n xs) (omega (arith, length-take n xs))

  pub take-add : (m n : ℕ) (xs : List A) → take m xs ++ take n (drop m xs) ≡ take (m + n) xs
  take-add zero n xs = rw add.zero
  take-add (suc m) zero [] = rw add.suc
  take-add (suc m) (suc n) [] = rw add.suc
  take-add (suc m) n (x ∷ xs) = rw add.suc (ap (◌∷◌ x) (take-add m n xs))

pub get_or-append_left {ℓ} :
    {A : Type ℓ} (xs ys : List A) (k : ℕ) (d : A)
    → k < length xs
    → get_or (xs ++ ys) k d ≡ get_or xs k d
get_or-append_left [] ys k d h = absurd (omega arith)
get_or-append_left (x ∷ xs) ys zero d h = refl
get_or-append_left (x ∷ xs) ys (suc k) d h = get_or-append_left xs ys k d (omega arith)
