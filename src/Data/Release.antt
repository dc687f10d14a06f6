-- ===== src/Data/Release.antt =====
-- `ReleaseBuffer`: the size that it settles on, with a given size and with the search for the
-- last byte that is not zero.
use Prim.Native.Nat.add
use native.Mathlib.Nat.{add-zero, add-suc}
use barry.Prelude.{
  replicate, length-append, length-replicate, length-drop, take-append, ℕ, zero, suc, ◌+◌, ◌-◌, ◌≤◌,
  ◌≡◌, refl, sym, ap, ◌∙◌, ◌≢◌, true, false, List, [], ◌∷◌, ◌++◌, leb, arith, pos, negsuc, length,
  drop, get_or, splice, length-splice, le→leb,
}
use barry.Data.{
  Data, contents, get_data, last_nonzero, released, release_buffer, get_buf_size, block_size,
}
use barry.Data.Contents.{written}

get_or-append : (xs ys : List ℕ) (i d : ℕ) → get_or (xs ++ ys) (length xs + i) d ≡ get_or ys i d
get_or-append [] ys i d = rw add.zero
get_or-append (x ∷ xs) ys i d = rw add.suc (get_or-append xs ys i d)

get_or-replicate : (n i : ℕ) → get_or {A = ℕ} (replicate n 0) i 0 ≡ 0
get_or-replicate zero i = refl
get_or-replicate (suc n) zero = refl
get_or-replicate (suc n) (suc i) = get_or-replicate n i

-- The search from the end of a block that ends in zeros stops at the byte before them.
last_nonzero-append :
    (bytes : List ℕ) (n k : ℕ)
    → get_or bytes n 0 ≢ 0
    → ((i : ℕ) → get_or bytes (suc (n + i)) 0 ≡ 0)
    → last_nonzero bytes (n + k) ≡ n
unfolding last_nonzero
last_nonzero-append bytes zero zero h z = refl
last_nonzero-append bytes (suc n) zero h z = rw (add.suc n 0, add-zero) (ground arith)
last_nonzero-append bytes n (suc k) h z =
    rw add-suc (ground (arith, z k, last_nonzero-append bytes n k h z))

module _ (xs : List ℕ) (b k : ℕ) where
  abbrev tail_zeros : List ℕ
  tail_zeros = xs ++ (suc b ∷ replicate k 0)

  length-tail_zeros : length tail_zeros ≡ suc (length xs + k)
  length-tail_zeros =
      omega (arith, length-append xs (suc b ∷ replicate k 0), length-replicate {A = ℕ} k 0)

  last_nonzero-tail_zeros : last_nonzero tail_zeros (length xs + k) ≡ length xs
  last_nonzero-tail_zeros =
      last_nonzero-append tail_zeros (length xs) k (λ z. omega (arith, hit z))
        (λ i.
          ap (λ j. get_or tail_zeros j 0) (sym (add-suc (length xs) i))
          ∙ get_or-append xs (suc b ∷ replicate k 0) (suc i) 0
          ∙ get_or-replicate k i)
    where
      hit : get_or tail_zeros (length xs) 0 ≡ 0 → suc b ≡ 0
      hit z =
          sym (get_or-append xs (suc b ∷ replicate k 0) 0 0)
          ∙ ap (λ j. get_or tail_zeros j 0) (add-zero (length xs))
          ∙ z

-- Where a buffer owns its memory, and its room is `xs`, a byte that is not zero, and zeros,
-- `ReleaseBuffer(-1)` settles on the contents `xs`: the byte that its search finds is left out.
pub release_buffer_loses_last :
    (d : Data) (xs : List ℕ) (b k : ℕ)
    → d.external ≡ false
    → drop d.data_start d.mem_block ≡ xs ++ (suc b ∷ replicate k 0)
    → (d' : Data) × (release_buffer d (negsuc 0) ≡ released d') × (contents d' ≡ xs)
unfolding release_buffer get_buf_size block_size
release_buffer_loses_last d xs b k e room =
    let n : get_buf_size d ≡ suc (length xs + k) = rw e (
      omega
        (arith, length-drop d.data_start d.mem_block, ap length room, length-tail_zeros xs b k)) in
    let back : suc (length xs + k) - 1 ≡ length xs + k = omega arith in
    let found : last_nonzero (drop d.data_start d.mem_block) (get_buf_size d - 1) ≡ length xs =
      simp (n, back, room, last_nonzero-tail_zeros xs b k) in
    (
      record d { data_size = length xs },
      ground (arith, n, found),
      unfold contents get_data in rw e (rw room (take-append xs (suc b ∷ replicate k 0))),
    )

-- `ReleaseBuffer` after bytes were written through the pointer of `GetBuffer`.
pub release_buffer-written :
    (d : Data) (o : ℕ) (bs : List ℕ)
    → d.external ≡ false
    → d.data_start + (o + length bs) ≤ length d.mem_block
    → release_buffer
        (record d { mem_block = splice d.mem_block (d.data_start + o) bs })
        (pos (length bs + o))
      ≡ released (written d o bs (length bs + o))
unfolding release_buffer get_buf_size block_size written
release_buffer-written d o bs internal room =
    let fits : leb (length bs + o)
          (length (splice d.mem_block (d.data_start + o) bs) - d.data_start)
        ≡ true =
      le→leb _ _ (omega (arith, room, length-splice d.mem_block (d.data_start + o) bs)) in
    rw (internal, fits)
