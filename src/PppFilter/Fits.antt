-- ===== src/PppFilter/Fits.antt =====
-- The filter in the buffer that it asks for: the worst case is large enough.
use barry.Prelude.{
  true, false, ◌∷◌, ◌==◌, inl, inr, Bool-cases, ℕ, ◌+◌, ◌*◌, ◌/◌, ◌^◌, ◌≤◌, ◌<◌, int_of-small, ◌≡◌,
  refl, ◌∙◌, Bool, some, List, [], if◌then◌else◌, length, drop, arith,
}
use barry.Data.{Data, contents, IsValid, to_option}
use barry.Data.Space.{get_buffer_lem}
use barry.Data.Release.{release_buffer-written}
use barry.Data.Contents.{written, drop-contents-written, written-IsValid, write-eq}
use barry.PppFilter.{
  PppFilter, flag, filter, needed, copy_size, copy_behind, filtered, run_filter, write_prepend,
}
use barry.PppFilter.Frames.{frame, inside_at_end, last_of, filter_loop-frame, length-frame}

enough : (inside : Bool) (src : List ℕ) → length (frame inside src) ≤ length src / 2 * 3 + 4
enough inside src =
    let s : (if inside then 0 else 1) ≤ 1 = ground arith in
    omega (arith, length-frame inside src, s)

-- What `Filter` leaves in the destination buffer.
pub record Filtered (inside : Bool) (src : List ℕ) (destoffset : ℕ) (d' : Data) : Type 0 where
  pub valid : IsValid d'
  pub bytes : drop destoffset (contents d') ≡ frame inside src
  pub count : d'.data_size ≡ length (frame inside src) + destoffset

-- With a valid destination, a worst case below 2 ^ 31 and an `m_last` that stands for a state of
-- the stream, `Filter` neither throws nor writes outside the space that it asks for: from `destoffset` on the destination holds
-- the stream of the source and nothing else, its size is that of the stream and `destoffset`, it
-- is valid, and `m_last` is that of the state behind the stream.
pub filter_lem :
    (dest : Data) (src : List ℕ) (destoffset : ℕ) (inside : Bool)
    → IsValid dest
    → needed src destoffset < 2 ^ 31
    → (d' : Data) × (filter dest src destoffset (last_of inside)
        ≡ some (d', last_of (inside_at_end inside src)))
      × Filtered inside src destoffset d'
unfolding filter to_option
filter_lem dest src destoffset inside v small =
    let n = needed src destoffset in
    let (d, made, s) = get_buffer_lem dest n v in
    let out = frame inside src in
    let few = enough inside src in
    let fits : d.data_start + (destoffset + length out) ≤ length d.mem_block =
      omega (arith, few, s.room) in
    let k = length out + destoffset in
    (
      written d destoffset out k,
      rw made (
          rw (
            filter_loop-frame (length src) inside src (omega arith),
            write-eq d.mem_block (d.data_start + destoffset) out (omega (arith, fits)),
            int_of-small k (omega (arith, few)),
            release_buffer-written d destoffset out s.internal fits,
          )),
      record {
        valid = written-IsValid d destoffset out k s.internal (omega (arith, fits));
        bytes = drop-contents-written d destoffset out s.internal fits;
        count = unfold written in refl;
      },
    )

-- The buffer of the filter, after a call with prepend space: what follows that space.
pub record Kept (prepend : ℕ) (out : List ℕ) (d' : Data) : Type 0 where
  pub valid : IsValid d'
  pub bytes : drop prepend (contents d') ≡ out

written-Kept :
    (d : Data) (o : ℕ) (out : List ℕ)
    → d.external ≡ false
    → d.data_start + (o + length out) ≤ length d.mem_block
    → Kept o out (written d o out (length out + o))
written-Kept d o out internal fits = record {
  valid = written-IsValid d o out (length out + o) internal (omega (arith, fits));
  bytes = drop-contents-written d o out internal fits;
}

copy_behind_lem :
    (f : PppFilter) (src : List ℕ) (prepend : ℕ)
    → IsValid f.write_buf
    → needed src prepend < 2 ^ 31
    → (d' : Data) × (copy_behind f src prepend ≡ some (filtered (record f { write_buf = d' })))
      × Kept prepend src d'
unfolding copy_behind to_option
copy_behind_lem f src prepend v small =
    let size : copy_size src prepend ≡ length src + prepend = omega arith in
    let (d, made, s) = get_buffer_lem f.write_buf (length src + prepend) v in
    let fits : d.data_start + (prepend + length src) ≤ length d.mem_block = omega (arith, s.room) in
    (
      written d prepend src (length src + prepend),
      rw (size, made)
          (rw (
            int_of-small (length src + prepend) (omega arith),
            write-eq d.mem_block (d.data_start + prepend) src (omega (arith, fits)),
            release_buffer-written d prepend src s.internal fits,
          )),
      written-Kept d prepend src s.internal fits,
    )

-- What `Write(data, prepend)` leaves: in PPP mode the stream of the data, and else the data.
pub record Leaves (f : PppFilter) (inside : Bool) (src : List ℕ) (prepend : ℕ) (f' : PppFilter)
    : Type 0 where
  pub result : write_prepend f src prepend ≡ some (filtered f')
  pub kept : Kept prepend (if f'.ppp_mode then frame inside src else src) f'.write_buf
  pub state : f'.last ≡ (if f'.ppp_mode then last_of (inside_at_end inside src) else f.last)

run_filter_lem :
    (f : PppFilter) (src : List ℕ) (prepend : ℕ) (inside : Bool)
    → IsValid f.write_buf
    → needed src prepend < 2 ^ 31
    → f.last ≡ last_of inside
    → (d' : Data) × (run_filter f src prepend
        ≡ some (
            filtered (record {
              write_buf = d';
              ppp_mode = true;
              last = last_of (inside_at_end inside src);
            })))
      × Kept prepend (frame inside src) d'
unfolding run_filter
run_filter_lem f src prepend inside v small e =
    let (d', run, s) = filter_lem f.write_buf src prepend inside v small in
    (d', simp (e, run), record { valid = s.valid; bytes = s.bytes })

filters :
    (f : PppFilter) (src : List ℕ) (prepend : ℕ) (inside : Bool)
    → IsValid f.write_buf
    → needed src prepend < 2 ^ 31
    → f.last ≡ last_of inside
    → write_prepend f src prepend ≡ run_filter f src prepend
    → (f' : PppFilter) × Leaves f inside src prepend f'
filters f src prepend inside v small e way =
    let (d', run, k) = run_filter_lem f src prepend inside v small e in
    (
      record { write_buf = d'; ppp_mode = true; last = last_of (inside_at_end inside src) },
      record { result = way ∙ run; kept = k; state = refl },
    )

copies :
    (f : PppFilter) (src : List ℕ) (prepend : ℕ) (inside : Bool)
    → IsValid f.write_buf
    → needed src prepend < 2 ^ 31
    → f.ppp_mode ≡ false
    → write_prepend f src prepend ≡ copy_behind f src prepend
    → (f' : PppFilter) × Leaves f inside src prepend f'
copies f src prepend inside v small off way =
    let (d', run, k) = copy_behind_lem f src prepend v small in
    (
      record f { write_buf = d' },
      record { result = way ∙ run; kept = simp off k; state = simp off refl },
    )

-- `Write(data, prepend)` on a filter with a valid buffer and an `m_last` that stands for a state
-- of the stream, where the worst case of the data and the prepend space is below 2 ^ 31, neither
-- throws nor leaves its buffer. Behind the prepend space its buffer, which stays valid, holds the stream of the data where the filter is in PPP mode after the call, with
-- `m_last` for the state behind it, and the data itself, with `m_last` unchanged, where it is not.
pub write_prepend_lem :
    (f : PppFilter) (src : List ℕ) (prepend : ℕ) (inside : Bool)
    → IsValid f.write_buf
    → needed src prepend < 2 ^ 31
    → f.last ≡ last_of inside
    → (f' : PppFilter) × Leaves f inside src prepend f'
unfolding write_prepend
write_prepend_lem f [] prepend inside v small e = elim (Bool-cases f.ppp_mode) [
  | inl on ↦ filters f [] prepend inside v small e (simp on refl)
  | inr off ↦ copies f [] prepend inside v small off (simp off refl)
]
write_prepend_lem f (b ∷ bs) prepend inside v small e = elim (Bool-cases f.ppp_mode) [
  | inl on ↦ filters f (b ∷ bs) prepend inside v small e (simp on refl)
  | inr off ↦ elim (Bool-cases (b == flag)) [
    | inl opens ↦ filters f (b ∷ bs) prepend inside v small e (simp (off, opens) refl)
    | inr plain ↦ copies f (b ∷ bs) prepend inside v small off (simp (off, plain) refl)
  ]
]
