-- ===== src/Data/Contents.antt =====
-- What the writing operations of the buffer class do to its contents.
use mathlib.Core.List.{append_assoc, append-nil}
use barry.Prelude.{
  ℕ, ◌+◌, ◌-◌, ◌≤◌, ◌≡◌, refl, sym, ap, ◌∙◌, false, inl, inr, some, List, ◌++◌, if◌then◌else◌, leb,
  ltb, arith, Bool-cases, le→leb, leb→le, ltb→lt, length, take, drop, splice, length-take,
  drop-append, [], length-drop, length-append, length-splice, take-drop-splice, drop-splice,
  splice-eq, splice-zero, take-append_add, take-drop, take-take, drop-drop, drop_all,
  drop-take_self,
}
use barry.Data.{
  Data, contents, IsValid, get_data, append, prepend, mem_cpy, assign, prechop, quick_zap, get_size,
  read, write,
}
use barry.Data.Space.{Apart, length-contents, make_space_lem, get_buffer_lem}

-- `d'` is valid, holds `bs` and has the endpoint of `d`.
pub record Holds (d : Data) (bs : List ℕ) (d' : Data) : Type 0 where
  pub valid : IsValid d'
  pub holds : contents d' ≡ bs
  pub endpoint : d'.endpoint ≡ d.endpoint

pub contents_internal :
    (d : Data) → d.external ≡ false → contents d ≡ take d.data_size (drop d.data_start d.mem_block)
unfolding contents get_data
contents_internal d e = rw e

-- A write at the offset `o` of the room, after which `k` bytes count.
overlay :
    (o k : ℕ) (m bs : List ℕ)
    → o + length bs ≤ k
    → k ≤ length m
    → take k (splice m o bs) ≡ take o m ++ (bs ++ drop (o + length bs) (take k m))
overlay o k m bs h fits =
    let pre = take o m ++ bs in
    let n = k - (o + length bs) in
    let e : length pre ≡ o + length bs =
      omega (arith, length-append (take o m) bs, length-take o m) in
    let total : o + length bs + n ≡ k = omega arith in
    ap (take k) (splice-eq o m bs (omega arith) ∙ sym (append_assoc (take o m) bs _))
    ∙ ap (λ j. take j (pre ++ drop (o + length bs) m)) (sym (rw e total))
    ∙ take-append_add n pre (drop (o + length bs) m)
    ∙ ap (λ t. pre ++ t)
        (take-drop (o + length bs) n m ∙ ap (λ j. drop (o + length bs) (take j m)) total)
    ∙ append_assoc (take o m) bs _

pub write-eq :
    (l : List ℕ) (o : ℕ) (bs : List ℕ)
    → o + length bs ≤ length l
    → write l o bs ≡ some (splice l o bs)
write-eq l o bs h = rw (le→leb _ _ h)

-- The buffer after a write at the offset `o` behind its start.
unfoldable pub written : Data → ℕ → List ℕ → ℕ → Data
written d o bs k = record d { mem_block = splice d.mem_block (d.data_start + o) bs; data_size = k }

pub contents-written :
    (d : Data) (o : ℕ) (bs : List ℕ) (k : ℕ)
    → d.external ≡ false
    → o + length bs ≤ k
    → d.data_start + k ≤ length d.mem_block
    → let m = drop d.data_start d.mem_block in
      contents (written d o bs k) ≡ take o m ++ (bs ++ drop (o + length bs) (take k m))
unfolding written
contents-written d o bs k e h fits =
    contents_internal (written d o bs k) e
    ∙ ap (take k) (drop-splice d.data_start o d.mem_block bs)
    ∙ overlay o k (drop d.data_start d.mem_block) bs h
        (omega (arith, length-drop d.data_start d.mem_block))

drop-overlay :
    (o : ℕ) (m bs : List ℕ)
    → o ≤ length m
    → drop o (take o m ++ (bs ++ drop (o + length bs) (take (length bs + o) m))) ≡ bs
drop-overlay o m bs h =
    let e : length (take o m) ≡ o = omega (arith, length-take o m) in
    let gone : drop (o + length bs) (take (length bs + o) m) ≡ [] =
      drop_all (o + length bs) (take (length bs + o) m)
        (omega (arith, length-take (length bs + o) m)) in
    ap (λ j. drop j (take o m ++ (bs ++ drop (o + length bs) (take (length bs + o) m)))) (sym e)
    ∙ drop-append (take o m) _
    ∙ ap (λ t. bs ++ t) gone
    ∙ append-nil bs

-- What follows the offset of the written bytes, where they end the contents.
pub drop-contents-written :
    (d : Data) (o : ℕ) (bs : List ℕ)
    → d.external ≡ false
    → d.data_start + (o + length bs) ≤ length d.mem_block
    → drop o (contents (written d o bs (length bs + o))) ≡ bs
drop-contents-written d o bs e fits =
    ap (drop o) (contents-written d o bs (length bs + o) e (omega arith) (omega (arith, fits)))
    ∙ drop-overlay o (drop d.data_start d.mem_block) bs
        (omega (arith, fits, length-drop d.data_start d.mem_block))

pub written-IsValid :
    (d : Data) (o : ℕ) (bs : List ℕ) (k : ℕ)
    → d.external ≡ false
    → d.data_start + k ≤ length d.mem_block
    → IsValid (written d o bs k)
unfolding written
written-IsValid d o bs k e fits = record {
  fits = ground (arith, length-splice d.mem_block (d.data_start + o) bs);
}

-- On a valid buffer, `Append` never leaves its block; the buffer stays valid, keeps its endpoint,
-- and holds the old contents with the new bytes behind them.
pub append_lem :
    (d : Data) (buf : List ℕ)
    → IsValid d
    → (d' : Data) × (append d buf ≡ some d') × Holds d (contents d ++ buf) d'
unfolding append
append_lem d buf v =
    let (d', e, s) = get_buffer_lem d (d.data_size + length buf) v in
    let k = d'.data_size + length buf in
    let room : d'.data_start + k ≤ length d'.mem_block = omega (arith, s.room, s.size) in
    (
      written d' d'.data_size buf k,
      rw e (
          rw (write-eq d'.mem_block (d'.data_start + d'.data_size) buf (omega arith))
            (unfold written in refl)),
      record {
        valid = written-IsValid d' d'.data_size buf k s.internal room;
        holds =
            contents-written d' d'.data_size buf k s.internal (omega arith) room
            ∙ ap (λ t. take d'.data_size (drop d'.data_start d'.mem_block) ++ (buf ++ t))
                (drop-take_self k (drop d'.data_start d'.mem_block))
            ∙ ap (λ t. take d'.data_size (drop d'.data_start d'.mem_block) ++ t) (append-nil buf)
            ∙ ap (λ t. t ++ buf) (sym (contents_internal d' s.internal) ∙ s.kept);
        endpoint = unfold written in s.same_endpoint;
      },
    )

chop : (n k : ℕ) (l : List ℕ) → n ≤ k → take (k - n) (drop n l) ≡ drop n (take k l)
chop n k l h =
    let e : n + (k - n) ≡ k = omega arith in take-drop n (k - n) l ∙ ap (λ j. drop n (take j l)) e

-- `Prechop` of a valid buffer removes that many bytes from the front of the contents, or all of
-- them where there are no more; the buffer stays valid and keeps its endpoint.
prechop_lem : (d : Data) (n : ℕ) → IsValid d → Holds d (drop n (contents d)) (prechop d n)
unfolding prechop quick_zap get_size contents get_data
prechop_lem d n v = elim (Bool-cases (leb d.data_size n)) [
  | inl all ↦ record {
    valid = ground arith;
    holds =
        rw all (sym (drop_all n (contents d) (omega (arith, length-contents d v, leb→le _ _ all))));
    endpoint = rw all;
  }
  | inr some_left ↦ elim (Bool-cases d.external) [
    | inl e ↦ record {
      valid = record { fits = ground (arith, length-drop n d.external_data) };
      holds = rw (some_left, e) (chop n d.data_size d.external_data (ground arith));
      endpoint = rw (some_left, e);
    }
    | inr e ↦ record {
      valid = record { fits = ground arith };
      holds =
          rw (some_left, e)
            (ap (take (d.data_size - n)) (sym (drop-drop d.data_start n d.mem_block))
              ∙ chop n d.data_size (drop d.data_start d.mem_block) (ground arith));
      endpoint = rw (some_left, e);
    }
  ]
]

-- The buffer after a write just before its start.
prepended : Data → List ℕ → Data
prepended d bs = record d {
  mem_block = splice d.mem_block (d.data_start - length bs) bs;
  data_start = d.data_start - length bs;
  data_size = d.data_size + length bs;
}

module _ (d : Data) (bs : List ℕ) (e : d.external ≡ false) (room : length bs ≤ d.data_start)
    (inside : d.data_start + d.data_size ≤ length d.mem_block) where
  prepended-IsValid : IsValid (prepended d bs)
  unfolding prepended
  prepended-IsValid = record {
    fits = ground (arith, length-splice d.mem_block (d.data_start - length bs) bs);
  }

  contents-prepended : contents (prepended d bs) ≡ bs ++ contents d
  unfolding prepended
  contents-prepended =
      let s = d.data_start - length bs in
      let s0 : s + 0 ≡ s = omega arith in
      let back : s + length bs ≡ d.data_start = omega arith in
      let size : d.data_size + length bs ≡ length bs + d.data_size = omega arith in
      contents_internal (prepended d bs) e
      ∙ ap (λ j. take (d.data_size + length bs) (drop s (splice d.mem_block j bs))) (sym s0)
      ∙ ap (take (d.data_size + length bs)) (drop-splice s 0 d.mem_block bs)
      ∙ ap (take (d.data_size + length bs))
          (splice-zero (drop s d.mem_block) bs (omega (arith, length-drop s d.mem_block)))
      ∙ ap (λ j. take j (bs ++ drop (length bs) (drop s d.mem_block))) size
      ∙ take-append_add d.data_size bs (drop (length bs) (drop s d.mem_block))
      ∙ ap (λ t. bs ++ take d.data_size t)
          (drop-drop s (length bs) d.mem_block ∙ ap (λ j. drop j d.mem_block) back)
      ∙ ap (λ t. bs ++ t) (sym (contents_internal d e))

-- On a valid buffer, where the prepend space is there, or the memory is foreign, or the block is too
-- small to be reused, or the contents end within as many bytes at its start as are new, `Prepend`
-- never leaves its block; the buffer stays valid, keeps its endpoint, and holds the new bytes with
-- the old contents behind them.
pub prepend_lem :
    (d : Data) (buf : List ℕ)
    → IsValid d
    → Apart d 0 (length buf)
    → (d' : Data) × (prepend d buf ≡ some d') × Holds d (buf ++ contents d) d'
unfolding prepend
prepend_lem d buf v apart =
    let (d₁, e, s) = make_space_lem d 0 (length buf) v apart in
    (
      prepended d₁ buf,
      rw e (
          rw (le→leb (length buf) d₁.data_start s.prepend) (
            rw
              (write-eq d₁.mem_block (d₁.data_start - length buf) buf
                (omega (arith, s.prepend, s.inside)))
              (unfold prepended in refl))),
      record {
        valid = prepended-IsValid d₁ buf s.internal s.prepend s.inside;
        holds = contents-prepended d₁ buf s.internal s.prepend s.inside ∙ ap (λ t. buf ++ t) s.kept;
        endpoint = unfold prepended in s.same_endpoint;
      },
    )

tail_kept :
    (size end : ℕ) (m : List ℕ)
    → drop end (take (if ltb size end then end else size) m) ≡ drop end (take size m)
tail_kept size end m = elim (Bool-cases (ltb size end)) [
  | inl more ↦ rw more (
      drop-take_self end m
      ∙ sym (drop_all end (take size m) (omega (arith, ltb→lt size end more, length-take size m))))
  | inr less ↦ rw less
]

-- On a valid buffer whose contents reach as far as the offset, `MemCpy` never leaves its block;
-- the buffer stays valid, keeps its endpoint, and holds the old contents with the new bytes
-- written over them from the offset on, and extended where they are too short.
pub mem_cpy_lem :
    (d : Data) (offset : ℕ) (src : List ℕ)
    → IsValid d
    → offset ≤ d.data_size
    → (d' : Data) × (mem_cpy d offset src ≡ some d')
      × Holds d (take offset (contents d) ++ (src ++ drop (offset + length src) (contents d))) d'
unfolding mem_cpy
mem_cpy_lem d offset src v h =
    let (d₁, e, s) = get_buffer_lem d (offset + length src) v in
    let end = offset + length src in
    let k : ℕ = if ltb d₁.data_size end then end else d₁.data_size in
    let room : d₁.data_start + k ≤ length d₁.mem_block = ground (arith, s.room, s.inside) in
    let m = drop d₁.data_start d₁.mem_block in
    (
      written d₁ offset src k,
      rw e (
          rw (write-eq d₁.mem_block (d₁.data_start + offset) src (omega (arith, s.room)))
            (unfold written in refl)),
      record {
        valid = written-IsValid d₁ offset src k s.internal room;
        holds =
            contents-written d₁ offset src k s.internal (ground arith) room
            ∙ ap (λ t. take offset m ++ (src ++ t)) (tail_kept d₁.data_size end m)
            ∙ ap (λ t. t ++ (src ++ drop end (take d₁.data_size m)))
                (sym (take-take offset d₁.data_size m (omega (arith, s.size))))
            ∙ ap (λ t. take offset t ++ (src ++ drop end t))
                (sym (contents_internal d₁ s.internal) ∙ s.kept);
        endpoint = unfold written in s.same_endpoint;
      },
    )

-- What `operator=` leaves where the other buffer owns its bytes.
assigned : Data → Data → Data
assigned d other = record d {
  mem_block = splice d.mem_block d.data_start (contents other);
  data_size = other.data_size;
  endpoint = other.endpoint;
}

assigned-Holds :
    (d other : Data)
    → d.external ≡ false
    → IsValid other
    → d.data_start + other.data_size ≤ length d.mem_block
    → Holds other (contents other) (assigned d other)
unfolding assigned
assigned-Holds d other e w room =
    let n : length (contents other) ≡ other.data_size = length-contents other w in
    record {
      valid = record {
        fits = ground (arith, length-splice d.mem_block d.data_start (contents other));
      };
      holds =
          contents_internal (assigned d other) e
          ∙ ap (λ j. take j (drop d.data_start (splice d.mem_block d.data_start (contents other))))
              (sym n)
          ∙ take-drop-splice d.data_start d.mem_block (contents other) (omega arith);
      endpoint = refl;
    }

read-contents :
    (d : Data)
    → d.external ≡ false
    → IsValid d
    → read d.mem_block d.data_start d.data_size ≡ some (contents d)
read-contents d e v =
    rw (
      contents_internal d e,
      le→leb (d.data_start + d.data_size) (length d.mem_block) (ground arith),
    )

-- Assignment between two different valid objects never leaves a block, and leaves a valid buffer
-- with the contents and the endpoint of the other.
assign_lem :
    (d other : Data)
    → IsValid d
    → IsValid other
    → (d' : Data) × (assign d other ≡ some d') × Holds other (contents other) d'
unfolding assign
assign_lem d other v w = elim (Bool-cases other.external) [
  | inl e ↦ (
    record d {
      external_data = other.external_data;
      external = other.external;
      data_size = other.data_size;
      endpoint = other.endpoint;
    },
    rw e,
    record {
      valid = record { fits = ground arith };
      holds = unfold contents get_data in rw e;
      endpoint = refl;
    },
  )
  | inr e ↦
      let (d₁, made, s) = make_space_lem d other.data_size 0 v (inl (omega arith)) in
      (
        assigned d₁ other,
        simp e (
            rw made (
              rw (read-contents other e w) (
                rw
                  (write-eq d₁.mem_block d₁.data_start (contents other)
                    (omega (arith, s.room, length-contents other w)))
                  (unfold assigned in refl)))),
        assigned-Holds d₁ other s.internal w s.room,
      )
]
