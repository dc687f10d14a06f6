-- ===== src/PppFilter.antt =====
-- The PPP filter of src/pppfilter.h and src/pppfilter.cc, which inserts the 0x7e characters that
-- the device leaves out between frames.
--
-- `data` is the bytes between `GetData()` and `GetData() + GetSize()`, which are not in the
-- filter's own buffer, and a prepend space is an unsigned int. `none`: a call threw, or an access
-- left its block. `ReleaseBuffer` takes the sizes as ints.
pub mod Frames
pub mod Fits
use barry.Prelude.{
  ℕ, zero, suc, ◌+◌, ◌*◌, ◌/◌, Bool, true, false, Option, none, some, List, [], ◌∷◌, ◌++◌, ltb, leb,
  ◌==◌, if◌then◌else◌, int_of, ◌%◌, ◌^◌, length, replicate, ◌>>=◌,
}
use barry.Data.{Data, default_data, get_buffer, write, release_buffer, to_option}

abbrev pub flag : ℕ
flag = 0x7e

pub record PppFilter : Type 0 where
  pub write_buf : Data
  pub ppp_mode : Bool
  pub last : ℕ

pub new_filter : PppFilter
new_filter = record { write_buf = default_data; ppp_mode = false; last = flag }

-- The inner loop: the bytes before the next flag, and the bytes from that flag on.
unfoldable pub copy_verbatim : List ℕ → List ℕ × List ℕ
copy_verbatim [] = ([], [])
copy_verbatim (b ∷ bs) =
    let (plain, rest) = copy_verbatim bs in if b == flag then ([], b ∷ bs) else (b ∷ plain, rest)

-- The start of a round: the byte to put, and the bytes that are left.
unfoldable pub put_opening : ℕ → ℕ → List ℕ → List ℕ × List ℕ
put_opening last b bs =
    if last == flag
    then (if b == flag then (flag ∷ [], bs) else (flag ∷ [], b ∷ bs))
    else ([], b ∷ bs)

-- The outer loop: the bytes that it puts, and `m_last` at its end. `none`: the fuel ran out.
unfoldable pub filter_loop : ℕ → ℕ → List ℕ → Option (List ℕ × ℕ)
filter_loop fuel last [] = some ([], last)
filter_loop zero last (b ∷ bs) = none
filter_loop (suc fuel) last (b ∷ bs) =
    let (opening, rest) = put_opening last b bs in
    let (plain, rest') = copy_verbatim rest in
    elim rest' [
      | [] ↦ some (opening ++ plain, if last == flag then 0 else last)
      | f ∷ more ↦ elim (filter_loop fuel flag more) [
        | none ↦ none
        | some (out, last') ↦ some (opening ++ (plain ++ (f ∷ out)), last')
      ]
    ]

-- `needed`, the worst case.
abbrev pub needed : List ℕ → ℕ → ℕ
needed src destoffset = length src / 2 * 3 + 4 + destoffset

-- Each round of the loop takes a byte at least, so the fuel is enough.
unfoldable pub filter : Data → List ℕ → ℕ → ℕ → Option (Data × ℕ)
filter dest src destoffset last = do
  d ← get_buffer dest (needed src destoffset)
  (out, last') ← filter_loop (length src) last src
  block ← write d.mem_block (d.data_start + destoffset) out
  d' ←
      to_option (release_buffer (record d { mem_block = block }) (int_of (length out + destoffset)))
  some (d', last')

pub data Written : Type 0 where
  -- The caller's own data comes back.
  as_is : Written
  -- `m_writeBuf` comes back.
  filtered : PppFilter → Written

unfoldable pub run_filter : PppFilter → List ℕ → ℕ → Option Written
run_filter f src destoffset = do
  (d, last) ← filter f.write_buf src destoffset f.last
  some (filtered (record { write_buf = d; ppp_mode = true; last = last }))

-- `Write(data)`.
unfoldable pub write_data : PppFilter → List ℕ → Option Written
write_data f [] = some as_is
write_data f (b ∷ bs) =
    if f.ppp_mode
    then run_filter f (b ∷ bs) 0
    else if b == flag
    then run_filter f (b ∷ bs) 0
    else some as_is

-- `size`, an unsigned int.
abbrev pub copy_size : List ℕ → ℕ → ℕ
copy_size src prepend = (length src + prepend) % 2 ^ 32

-- The branch of `Write(data, prepend)` before PPP mode.
unfoldable pub copy_behind : PppFilter → List ℕ → ℕ → Option Written
copy_behind f src prepend = do
  d ← get_buffer f.write_buf (copy_size src prepend)
  block ← write d.mem_block (d.data_start + prepend) src
  d' ← to_option (release_buffer (record d { mem_block = block }) (int_of (copy_size src prepend)))
  some (filtered (record f { write_buf = d' }))

-- `Write(data, prepend)`.
unfoldable pub write_prepend : PppFilter → List ℕ → ℕ → Option Written
write_prepend f [] prepend =
    if f.ppp_mode then run_filter f [] prepend else copy_behind f [] prepend
write_prepend f (b ∷ bs) prepend =
    if f.ppp_mode
    then run_filter f (b ∷ bs) prepend
    else if b == flag
    then run_filter f (b ∷ bs) prepend
    else copy_behind f (b ∷ bs) prepend
