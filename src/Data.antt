-- ===== src/Data.antt =====
-- The buffer class of src/data.h and src/data.cc.
--
-- `mem_block` is the allocated block (its length is m_blockSize, and [] stands for the null
-- pointer too), `data_start` is m_dataStart - m_memBlock, and `external_data` is the memory at
-- m_externalData. Sizes are unbounded numbers, since no block comes near the range of size_t.
-- An operation that reads or writes memory answers `none` where the access would leave its block,
-- or where a `memcpy` is between two regions that overlap and are not the same.
pub mod Space
pub mod Contents
pub mod Release
use barry.Prelude.{
  ℕ, zero, suc, ◌+◌, ◌-◌, ◌≤◌, ◌<◌, max, ◌≡◌, Bool, true, false, not, ◌&&◌, ◌||◌, Option, none,
  some, List, [], ◌∷◌, ltb, leb, ◌==◌, if◌then◌else◌, ℤ, pos, negsuc, is_minus_one, length, get_or,
  take, drop, replicate, splice, ◌>>=◌,
}

pub record Data : Type 0 where
  pub mem_block : List ℕ
  pub data_start : ℕ
  pub data_size : ℕ
  pub external_data : List ℕ
  pub external : Bool
  pub endpoint : ℤ

unfoldable pub block_size : Data → ℕ
block_size d = length d.mem_block

-- `size` bytes of the block `l`, from the offset `o` on.
abbrev pub read : List ℕ → ℕ → ℕ → Option (List ℕ)
read l o size = if leb (o + size) (length l) then some (take size (drop o l)) else none

-- The block `l` after a copy of `bs` to the offset `o`.
abbrev pub write : List ℕ → ℕ → List ℕ → Option (List ℕ)
write l o bs = if leb (o + length bs) (length l) then some (splice l o bs) else none

pub new_data : ℤ → ℕ → ℕ → Data
new_data endpoint startsize prependsize = record {
  mem_block = replicate (startsize + prependsize) 0;
  data_start = prependsize;
  data_size = 0;
  external_data = [];
  external = false;
  endpoint = endpoint;
}

abbrev pub default_size : ℕ
default_size = 0x4000

abbrev pub default_prepend_size : ℕ
default_prepend_size = 0x100

pub default_data : Data
unfolding new_data
default_data = new_data (negsuc 0) default_size default_prepend_size

-- A view of memory that somebody else owns: `valid` is that memory.
pub wrap_data : List ℕ → Data
wrap_data valid = record {
  mem_block = [];
  data_start = 0;
  data_size = length valid;
  external_data = valid;
  external = true;
  endpoint = negsuc 0;
}

unfoldable pub available_prepend_space : Data → ℕ
available_prepend_space d = if d.external then 0 else d.data_start

unfoldable pub get_buf_size : Data → ℕ
unfolding block_size
get_buf_size d = if d.external then 0 else block_size d - d.data_start

-- The copy constructor. What an external original leaves unset in the new block reads as zero.
pub copy_data : Data → Data
unfolding block_size available_prepend_space
copy_data other = record other {
  mem_block = if other.external then replicate (block_size other) 0 else other.mem_block;
  data_start = available_prepend_space other;
}

-- `GetData()` is a pointer to this memory, of which `GetSize()` bytes are the contents.
unfoldable pub get_data : Data → List ℕ
get_data d = if d.external then d.external_data else drop d.data_start d.mem_block

pub get_size : Data → ℕ
get_size d = d.data_size

-- The bytes that a buffer holds: what `GetData()` and `GetSize()` show.
unfoldable pub contents : Data → List ℕ
unfolding get_data
contents d = take d.data_size (get_data d)

-- The contents lie inside the memory that the buffer points to.
pub record IsValid (d : Data) : Type 0 where
  pub fits :
      (if d.external then d.data_size else d.data_start + d.data_size)
      ≤ (if d.external then length d.external_data else length d.mem_block)

unfoldable pub prepend_size : Data → ℕ → ℕ
unfolding available_prepend_space
prepend_size d desiredprepend =
    let prepend = max (available_prepend_space d) desiredprepend in
    if prepend == 0 then 0x100 else prepend

unfoldable pub grow_size : Data → ℕ → ℕ → ℕ
grow_size d desiredsize prepend =
    let chunk = desiredsize + (1024 + prepend) in
    if ltb chunk (d.data_size + prepend) then d.data_size + prepend else chunk

-- Whether the contents overlap the place that they are copied to: both are in the block where that
-- is reused.
unfoldable pub overlaps : Data → ℕ → ℕ → Bool
unfolding block_size
overlaps d desiredsize prepend =
    not d.external
    && leb desiredsize (block_size d)
    && not (d.data_start == prepend)
    && ltb d.data_start (prepend + d.data_size)
    && ltb prepend (d.data_start + d.data_size)

-- The branch of `MakeSpace` that reallocates or reuses the block.
unfoldable pub move_data : Data → ℕ → ℕ → Option Data
unfolding block_size overlaps
move_data d desiredsize prepend =
    let newbuf = if leb desiredsize (block_size d) then d.mem_block else replicate desiredsize 0 in
    if overlaps d desiredsize prepend then none else do
      valid ←
          if d.external
          then read d.external_data 0 d.data_size
          else read d.mem_block d.data_start d.data_size
      block ← write newbuf prepend valid
      some (record d { mem_block = block; data_start = prepend; external = false })

unfoldable pub make_space : Data → ℕ → ℕ → Option Data
unfolding prepend_size grow_size get_buf_size available_prepend_space
make_space d desiredsize desiredprepend =
    let prepend = prepend_size d desiredprepend in
    if ltb (get_buf_size d) (desiredsize + prepend)
      || (not (desiredprepend == 0) && ltb (available_prepend_space d) desiredprepend)
    then move_data d (grow_size d desiredsize prepend) prepend
    else some d

unfoldable pub get_buffer : Data → ℕ → Option Data
get_buffer d requiredsize = make_space d (if requiredsize == 0 then d.data_size else requiredsize) 0

pub quick_zap : Data → Data
quick_zap d = record d { data_size = 0 }

unfoldable pub zap : Data → Data
unfolding block_size
zap d = record d {
  mem_block = if d.external then d.mem_block else replicate (block_size d) 0;
  data_size = 0;
}

-- `operator=` between two different objects.
pub assign : Data → Data → Option Data
assign d other =
    if other.external
    then some (record d {
      external_data = other.external_data;
      external = other.external;
      data_size = other.data_size;
      endpoint = other.endpoint;
    })
    else do
      d' ← make_space d other.data_size 0
      bytes ← read other.mem_block other.data_start other.data_size
      block ← write d'.mem_block d'.data_start bytes
      some (record d' { mem_block = block; data_size = other.data_size; endpoint = other.endpoint })

-- `MemCpy`, with an offset that is no part of `d`; the new offset is `offset + length src`.
pub mem_cpy : Data → ℕ → List ℕ → Option Data
mem_cpy d offset src = do
  d' ← get_buffer d (offset + length src)
  block ← write d'.mem_block (d'.data_start + offset) src
  some (record d' {
    mem_block = block;
    data_size =
        if ltb d'.data_size (offset + length src) then offset + length src else d'.data_size;
  })

-- `Append` hands `m_dataSize` itself to `MemCpy` as the offset, which moves it past the new bytes.
pub append : Data → List ℕ → Option Data
append d buf = do
  d' ← get_buffer d (d.data_size + length buf)
  block ← write d'.mem_block (d'.data_start + d'.data_size) buf
  some (record d' { mem_block = block; data_size = d'.data_size + length buf })

pub prepend : Data → List ℕ → Option Data
prepend d buf = do
  d' ← make_space d 0 (length buf)
  start ← if leb (length buf) d'.data_start then some (d'.data_start - length buf) else none
  block ← write d'.mem_block start buf
  some (record d' { mem_block = block; data_start = start; data_size = d'.data_size + length buf })

pub prechop : Data → ℕ → Data
unfolding quick_zap get_size
prechop d size =
    if leb (get_size d) size
    then quick_zap d
    else if d.external
    then record d { external_data = drop size d.external_data; data_size = d.data_size - size }
    else record d { data_start = d.data_start + size; data_size = d.data_size - size }

-- `while( m_dataSize && m_dataStart[m_dataSize] == 0 ) --m_dataSize;`
pub last_nonzero : List ℕ → ℕ → ℕ
last_nonzero bytes zero = zero
last_nonzero bytes (suc i) =
    let rest = last_nonzero bytes i in if get_or bytes (suc i) 0 == 0 then rest else suc i

pub data Released : Type 0 where
  released : Data → Released
  -- The three logic_errors, and the read outside the block that an empty buffer leads to.
  bad_argument not_internal too_large out_of_block : Released

unfoldable pub release_buffer : Data → ℤ → Released
unfolding get_buf_size last_nonzero
release_buffer d (pos size) =
    if d.external
    then not_internal
    else if leb size (get_buf_size d)
    then released (record d { data_size = size })
    else too_large
release_buffer d (negsuc n) =
    if not (n == 0)
    then bad_argument
    else if d.external
    then not_internal
    else if get_buf_size d == 0
    then out_of_block
    else released
        (record d { data_size = last_nonzero (drop d.data_start d.mem_block) (get_buf_size d - 1) })

unfoldable pub to_option : Released → Option Data
to_option (released d) = some d
to_option bad_argument = none
to_option not_internal = none
to_option too_large = none
to_option out_of_block = none
