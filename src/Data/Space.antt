-- ===== src/Data/Space.antt =====
-- `MakeSpace` and `GetBuffer`: room is made, and the contents stay.
use barry.Prelude.{
  ℕ, ◌+◌, ◌≤◌, ◌<◌, ◌≡◌, refl, sym, ap, ◌∙◌, Bool, true, false, not, ◌&&◌, ◌||◌, inl, inr, ◌⊎◌,
  some, List, if◌then◌else◌, leb, ltb, ◌==◌, arith, Bool-cases, length, take, drop, replicate,
  splice, length-take, length-drop, length-replicate, length-splice, take-drop-splice,
}
use barry.Data.{
  Data, contents, IsValid, block_size, get_data, available_prepend_space, get_buf_size,
  prepend_size, grow_size, move_data, make_space, get_buffer, overlaps,
}

pub length-contents : (d : Data) → IsValid d → length (contents d) ≡ d.data_size
unfolding contents
length-contents d v = ground (
  arith,
  length-take d.data_size d.external_data,
  length-take d.data_size (drop d.data_start d.mem_block),
  length-drop d.data_start d.mem_block,
)

abbrev new_block : Data → ℕ → List ℕ
unfolding block_size
new_block d n = if leb n (block_size d) then d.mem_block else replicate n 0

length-new_block : (d : Data) (n : ℕ) → n ≤ length (new_block d n)
unfolding block_size
length-new_block d n = ground (arith, length-replicate {A = ℕ} n 0)

-- What the reallocating branch leaves.
moved : Data → ℕ → ℕ → Data
unfolding block_size
moved d n p = record d {
  mem_block = splice (if leb n (block_size d) then d.mem_block else replicate n 0) p (contents d);
  data_start = p;
  external = false;
}

move_data-eq :
    (d : Data) (n p : ℕ)
    → IsValid d
    → p + d.data_size ≤ n
    → overlaps d n p ≡ false
    → move_data d n p ≡ some (moved d n p)
unfolding move_data moved contents block_size
move_data-eq d n p v h apart =
    rw apart (ground (arith, length-contents d v, length-replicate {A = ℕ} n 0))

-- `d'` holds what `d` held, with room for `n` bytes behind `p` bytes of prepend space.
pub record IsSpaced (d : Data) (n p : ℕ) (d' : Data) : Type 0 where
  pub kept : contents d' ≡ contents d
  pub size : d'.data_size ≡ d.data_size
  pub same_endpoint : d'.endpoint ≡ d.endpoint
  pub internal : d'.external ≡ false
  pub room : d'.data_start + n ≤ length d'.mem_block
  pub inside : d'.data_start + d'.data_size ≤ length d'.mem_block
  pub prepend : p ≤ d'.data_start

contents-moved :
    (d : Data) (n p : ℕ) → IsValid d → p + d.data_size ≤ n → contents (moved d n p) ≡ contents d
unfolding contents moved block_size get_data
contents-moved d n p v h =
    let c = contents d in
    let e : length c ≡ d.data_size = length-contents d v in
    ap (λ k. take k (drop p (splice (new_block d n) p c))) (sym e)
    ∙ take-drop-splice p (new_block d n) c (omega (arith, length-new_block d n))

moved-IsSpaced :
    (d : Data) (m n p q : ℕ)
    → IsValid d
    → q + d.data_size ≤ n
    → q + m ≤ n
    → p ≤ q
    → IsSpaced d m p (moved d n q)
unfolding moved block_size
moved-IsSpaced d m n p q v fits room pre = record {
  kept = contents-moved d n q v fits;
  size = refl;
  same_endpoint = refl;
  internal = refl;
  room = omega (arith, length-splice (new_block d n) q (contents d), length-new_block d n);
  inside = omega (arith, length-splice (new_block d n) q (contents d), length-new_block d n);
  prepend = pre;
}

-- Enough room without a move.
stay-IsSpaced :
    (d : Data) (n p : ℕ)
    → IsValid d
    → n + prepend_size d p ≤ get_buf_size d
    → ((p == 0) ≡ true) ⊎ (p ≤ available_prepend_space d)
    → IsSpaced d n p d
unfolding prepend_size get_buf_size available_prepend_space block_size
stay-IsSpaced d n p v room pre = record {
  kept = refl;
  size = refl;
  same_endpoint = refl;
  internal = ground arith;
  room = ground arith;
  inside = ground arith;
  prepend = ground arith;
}

-- The test by which `MakeSpace` decides to move the contents.
abbrev must_move : Data → ℕ → ℕ → Bool
must_move d n p =
    ltb (get_buf_size d) (n + prepend_size d p)
    || (not (p == 0) && ltb (available_prepend_space d) p)

stays :
    (d : Data) (n p : ℕ)
    → must_move d n p ≡ false
    → (n + prepend_size d p ≤ get_buf_size d)
      × (((p == 0) ≡ true) ⊎ (p ≤ available_prepend_space d))
stays d n p h = ground arith

grow_size_enough :
    (d : Data) (n q : ℕ) → (q + d.data_size ≤ grow_size d n q) × (q + n ≤ grow_size d n q)
unfolding grow_size
grow_size_enough d n q = ground arith

prepend_size_enough : (d : Data) (p : ℕ) → p ≤ prepend_size d p
unfolding prepend_size
prepend_size_enough d p = ground arith

-- Why a move for `n` bytes and `p` bytes of prepend space copies to a place apart: that space is
-- there, or the memory is foreign, or the block is too small to be reused, or the contents end
-- before the place.
abbrev pub Apart : Data → ℕ → ℕ → Type 0
Apart d n p =
    (p ≤ d.data_start)
    ⊎ (d.external ≡ true)
    ⊎ (block_size d < n + 1024 + p)
    ⊎ (d.data_start + d.data_size ≤ p)

Apart-overlaps :
    (d : Data) (n p : ℕ)
    → Apart d n p
    → must_move d n p ≡ true
    → overlaps d (grow_size d n (prepend_size d p)) (prepend_size d p) ≡ false
unfolding overlaps grow_size prepend_size get_buf_size available_prepend_space block_size
Apart-overlaps d n p apart move = ground arith

-- `MakeSpace` succeeds on a valid buffer, where the prepend space that is asked for is there, or the
-- memory is foreign, or the block is too small to be reused, or the contents end within as many bytes
-- at its start as are asked for: no access leaves a block, the contents stay, and the room and the
-- prepend space are there.
pub make_space_lem :
    (d : Data) (n p : ℕ)
    → IsValid d
    → Apart d n p
    → (d' : Data) × (make_space d n p ≡ some d') × IsSpaced d n p d'
unfolding make_space
make_space_lem d n p v apart = elim (Bool-cases (must_move d n p)) [
  | inl move ↦
      let q = prepend_size d p in
      let (fits, room) = grow_size_enough d n q in
      (
        moved d (grow_size d n q) q,
        rw move (move_data-eq d (grow_size d n q) q v fits (Apart-overlaps d n p apart move)),
        moved-IsSpaced d n (grow_size d n q) p q v fits room (prepend_size_enough d p),
      )
  | inr stay ↦ let (room, pre) = stays d n p stay in (d, rw stay, stay-IsSpaced d n p v room pre)
]

pub IsSpaced-IsValid : (d : Data) (n p : ℕ) (d' : Data) → IsSpaced d n p d' → IsValid d'
IsSpaced-IsValid d n p d' s = record { fits = ground arith }

weaken : (d : Data) (m n p : ℕ) (d' : Data) → n ≤ m → IsSpaced d m p d' → IsSpaced d n p d'
weaken d m n p d' h s = record {
  kept = s.kept;
  size = s.size;
  same_endpoint = s.same_endpoint;
  internal = s.internal;
  room = omega arith;
  inside = s.inside;
  prepend = s.prepend;
}

-- `GetBuffer` likewise, where zero asks for the present size.
pub get_buffer_lem :
    (d : Data) (n : ℕ) → IsValid d → (d' : Data) × (get_buffer d n ≡ some d') × IsSpaced d n 0 d'
unfolding get_buffer
get_buffer_lem d n v =
    let m : ℕ = if n == 0 then d.data_size else n in
    let (d', e, s) = make_space_lem d m 0 v (inl (omega arith)) in
    (d', e, weaken d m n 0 d' (ground arith) s)
