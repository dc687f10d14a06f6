-- ===== src/PppFilter/Frames.antt =====
-- The filter loop against the two-state description of the stream that it makes.
use barry.Prelude.{
  ℕ, zero, suc, ◌+◌, ◌*◌, ◌≤◌, ◌≡◌, refl, ap, ◌∙◌, inl, inr, Bool, true, false, not, some, List, [],
  ◌∷◌, ◌++◌, ◌>>=◌, ◌==◌, if◌then◌else◌, length, arith, Bool-cases,
}
use barry.PppFilter.{flag, copy_verbatim, put_opening, filter_loop}

-- Whether the stream is inside a frame, after a byte.
abbrev pub inside_after : Bool → ℕ → Bool
inside_after inside b = if inside then not (b == flag) else true

-- The stream byte by byte. Between frames a flag opens the next frame, and any other byte gets a
-- flag before it; inside a frame a flag closes it.
abbrev pub frame : Bool → List ℕ → List ℕ
frame inside [] = []
frame true (b ∷ bs) = b ∷ frame (not (b == flag)) bs
frame false (b ∷ bs) = if b == flag then b ∷ frame true bs else flag ∷ b ∷ frame true bs

abbrev pub inside_at_end : Bool → List ℕ → Bool
inside_at_end inside [] = inside
inside_at_end inside (b ∷ bs) = inside_at_end (inside_after inside b) bs

-- `m_last` for a state of the stream.
abbrev pub last_of : Bool → ℕ
last_of inside = if inside then 0 else flag

-- How a list splits at its first flag, if it has one.
data Spanned (bs : List ℕ) : Type 0 where
  all_plain :
      copy_verbatim bs ≡ (bs, []) → frame true bs ≡ bs → inside_at_end true bs ≡ true → Spanned bs
  closes :
      (plain more : List ℕ)
      → copy_verbatim bs ≡ (plain, flag ∷ more)
      → frame true bs ≡ plain ++ (flag ∷ frame false more)
      → inside_at_end true bs ≡ inside_at_end false more
      → suc (length more) ≤ length bs
      → Spanned bs

Spanned-cons : (b : ℕ) (bs : List ℕ) → (b == flag) ≡ false → Spanned bs → Spanned (b ∷ bs)
unfolding copy_verbatim
Spanned-cons b bs n (all_plain e f i) =
    all_plain (rw (copy_verbatim, e, n)) (rw n (ap (λ t. b ∷ t) f)) (rw n i)
Spanned-cons b bs n (closes plain more e f i l) =
    closes (b ∷ plain) more (rw (copy_verbatim, e, n)) (rw n (ap (λ t. b ∷ t) f)) (rw n i)
      (omega arith)

spanned : (bs : List ℕ) → Spanned bs
unfolding copy_verbatim
spanned [] = all_plain refl refl refl
spanned (b ∷ bs) = elim (Bool-cases (b == flag)) [
  | inl e ↦
      let same : b ≡ flag = ground arith in rw same (closes [] bs refl refl refl (omega arith))
  | inr n ↦ Spanned-cons b bs n (spanned bs)
]

module _ (fuel last b : ℕ) (bs opening rest plain : List ℕ)
    (opens : put_opening last b bs ≡ (opening, rest)) where
  loop_ends :
      copy_verbatim rest ≡ (plain, [])
      → filter_loop (suc fuel) last (b ∷ bs)
        ≡ some (opening ++ plain, if last == flag then 0 else last)
  unfolding filter_loop
  loop_ends e =
      let end : ℕ = if last == flag then 0 else last in
      rw (filter_loop, opens, e)
        (ap (λ t. some (t.0 ++ (copy_verbatim t.1).0, end)) opens
          ∙ ap (λ t. some (opening ++ t.0, end)) e)

  loop_goes_on :
      (f last' : ℕ) (more out : List ℕ)
      → copy_verbatim rest ≡ (plain, f ∷ more)
      → filter_loop fuel flag more ≡ some (out, last')
      → filter_loop (suc fuel) last (b ∷ bs) ≡ some (opening ++ (plain ++ (f ∷ out)), last')
  unfolding filter_loop
  loop_goes_on f last' more out e g =
      rw (filter_loop, opens, e, g)
        (ap (λ t. some (t.0 ++ ((copy_verbatim t.1).0 ++ (f ∷ out)), last')) opens
          ∙ ap (λ t. some (opening ++ (t.0 ++ (f ∷ out)), last')) e)

last_of_end : (s : Bool) → (if last_of s == flag then 0 else last_of s) ≡ 0
last_of_end true = refl
last_of_end false = refl

-- One round, after which the rest of the frame and then the rest of the stream follow.
framed_round :
    (fuel b : ℕ) (s : Bool) (bs opening rest : List ℕ)
    → put_opening (last_of s) b bs ≡ (opening, rest)
    → length rest ≤ suc fuel
    → ((more : List ℕ)
        → length more ≤ fuel
        → filter_loop fuel (last_of false) more
          ≡ some (frame false more, last_of (inside_at_end false more)))
    → filter_loop (suc fuel) (last_of s) (b ∷ bs)
      ≡ some (opening ++ frame true rest, last_of (inside_at_end true rest))
framed_round fuel b s bs opening rest opens short next = elim (spanned rest) [
  | all_plain e f i ↦
      loop_ends fuel (last_of s) b bs opening rest rest opens e ∙ rw (last_of_end s, f, i)
  | closes plain more e f i l ↦
      loop_goes_on fuel (last_of s) b bs opening rest plain opens flag _ more _ e
        (next more (omega arith))
      ∙ rw (f, i)
]

-- With an `m_last` that stands for a state of the stream, and as much fuel as there are bytes, the
-- filter loop ends and makes the stream of the byte by byte description, with the `m_last` of the
-- state behind it.
pub filter_loop-frame :
    (fuel : ℕ) (inside : Bool) (bs : List ℕ)
    → length bs ≤ fuel
    → filter_loop fuel (last_of inside) bs
      ≡ some (frame inside bs, last_of (inside_at_end inside bs))
unfolding filter_loop put_opening
filter_loop-frame fuel inside [] h = refl
filter_loop-frame zero inside (b ∷ bs) h = absurd (omega arith)
filter_loop-frame (suc fuel) true (b ∷ bs) h =
    framed_round fuel b true bs [] (b ∷ bs) refl h (filter_loop-frame fuel false)
filter_loop-frame (suc fuel) false (b ∷ bs) h = elim (Bool-cases (b == flag)) [
  | inl e ↦
      let same : b ≡ flag = ground arith in
      framed_round fuel b false bs (flag ∷ []) bs (rw (put_opening, e)) (omega arith)
        (filter_loop-frame fuel false)
      ∙ rw same
  | inr n ↦
      framed_round fuel b false bs (flag ∷ []) (b ∷ bs) (rw (put_opening, n)) h
        (filter_loop-frame fuel false)
      ∙ rw n
]

-- The stream of two pieces is the stream of the first piece, and behind it that of the second.
pub frame-append :
    (inside : Bool) (xs ys : List ℕ)
    → frame inside (xs ++ ys) ≡ frame inside xs ++ frame (inside_at_end inside xs) ys
frame-append inside [] ys = refl
frame-append true (b ∷ xs) ys = ap (λ t. b ∷ t) (frame-append (not (b == flag)) xs ys)
frame-append false (b ∷ xs) ys = elim (Bool-cases (b == flag)) [
  | inl e ↦ rw e (ap (λ t. b ∷ t) (frame-append true xs ys))
  | inr n ↦ rw n (ap (λ t. flag ∷ b ∷ t) (frame-append true xs ys))
]

-- A stream that went through the filter goes through it unchanged, from the same state on.
pub frame-frame : (inside : Bool) (bs : List ℕ) → frame inside (frame inside bs) ≡ frame inside bs
frame-frame inside [] = refl
frame-frame true (b ∷ bs) = ap (λ t. b ∷ t) (frame-frame (not (b == flag)) bs)
frame-frame false (b ∷ bs) = elim (Bool-cases (b == flag)) [
  | inl e ↦ rw e (rw e (ap (λ t. b ∷ t) (frame-frame true bs)))
  | inr n ↦ rw n (rw n (ap (λ t. flag ∷ b ∷ t) (frame-frame true bs)))
]

-- The worst case.
pub length-frame :
    (inside : Bool) (bs : List ℕ)
    → length (frame inside bs) * 2 ≤ length bs * 3 + (if inside then 0 else 1)
length-frame inside [] = omega arith
length-frame true (b ∷ bs) =
    let h = length-frame (not (b == flag)) bs in
    let s : (if not (b == flag) then 0 else 1) ≤ 1 = ground arith in omega (arith, h, s)
length-frame false (b ∷ bs) = elim (Bool-cases (b == flag)) [
  | inl e ↦ rw e (omega (arith, length-frame true bs))
  | inr n ↦ rw n (omega (arith, length-frame true bs))
]

inside_at_end-append :
    (inside : Bool) (xs ys : List ℕ)
    → inside_at_end inside (xs ++ ys) ≡ inside_at_end (inside_at_end inside xs) ys
inside_at_end-append inside [] ys = refl
inside_at_end-append inside (b ∷ xs) ys = inside_at_end-append (inside_after inside b) xs ys

inside_at_end-frame :
    (inside : Bool) (bs : List ℕ) → inside_at_end inside (frame inside bs) ≡ inside_at_end inside bs
inside_at_end-frame inside [] = refl
inside_at_end-frame true (b ∷ bs) = inside_at_end-frame (not (b == flag)) bs
inside_at_end-frame false (b ∷ bs) = elim (Bool-cases (b == flag)) [
  | inl e ↦ rw e (inside_at_end-frame true bs)
  | inr n ↦
      rw n (ap (λ t. inside_at_end t (frame true bs)) (ap not n) ∙ inside_at_end-frame true bs)
]

-- How the writer cuts the stream does not matter: the loop over `xs`, and after it the loop over
-- `ys` with the `m_last` that the first one left, put what one loop over both puts.
pub filter_loop-append :
    (inside : Bool) (xs ys : List ℕ)
    → filter_loop (length (xs ++ ys)) (last_of inside) (xs ++ ys) ≡ (do
      (out, last) ← filter_loop (length xs) (last_of inside) xs
      (out', last') ← filter_loop (length ys) last ys
      some (out ++ out', last'))
filter_loop-append inside xs ys = rw (
  filter_loop-frame (length (xs ++ ys)) inside (xs ++ ys) (omega arith),
  filter_loop-frame (length xs) inside xs (omega arith),
  filter_loop-frame (length ys) (inside_at_end inside xs) ys (omega arith),
  frame-append inside xs ys,
  inside_at_end-append inside xs ys,
)

-- What the filter made is left as it is by a filter that starts in the same state.
filter_loop_idem :
    (inside : Bool) (bs : List ℕ)
    → (do
      (out, last) ← filter_loop (length bs) (last_of inside) bs
      filter_loop (length out) (last_of inside) out)
      ≡ filter_loop (length bs) (last_of inside) bs
filter_loop_idem inside bs = rw (
  filter_loop-frame (length bs) inside bs (omega arith),
  filter_loop-frame (length (frame inside bs)) inside (frame inside bs) (omega arith),
  frame-frame inside bs,
  inside_at_end-frame inside bs,
)
