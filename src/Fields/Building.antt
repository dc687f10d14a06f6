-- ===== src/Fields/Building.antt =====
-- BuildField and BuildFields of src/record.cc and the records, in a block that has the room.
use mathlib.Core.List.{append_assoc}
use barry.Data.{
  Data, contents, zap, block_size, prepend_size, available_prepend_space, get_buf_size, get_buffer,
  make_space, to_option,
}
use barry.Data.Contents.{written, drop-contents-written, write-eq}
use barry.Data.Release.{release_buffer-written}
use barry.Fields.{
  CommonField, common_field_header_size, encode, bytes_of, build_field, build_each, build_fields,
}
use barry.Protocol.{u16_bytes}
use barry.Prelude.{
  ℕ, ◌+◌, ◌%◌, ◌^◌, ◌≤◌, ◌<◌, ◌≡◌, refl, sym, ap, ◌∙◌, subst, false, some, List, [], ◌∷◌, ◌++◌,
  arith, length, drop, splice, length-append, length-replicate, length-splice, splice-nil,
  splice-splice, int_of-small,
}

-- A buffer of its own that takes the bytes behind `offset` without a move.
pub record HasRoom (d : Data) (offset : ℕ) (bytes : List ℕ) : Type 0 where
  pub internal : d.external ≡ false
  pub room : offset + length bytes + prepend_size d 0 ≤ get_buf_size d
  pub small : offset + length bytes < 2 ^ 31

get_buffer-stays :
    (d : Data) (n : ℕ) → 0 < n → n + prepend_size d 0 ≤ get_buf_size d → get_buffer d n ≡ some d
unfolding get_buffer make_space
get_buffer-stays d n h room = ground arith

length-encode_nil :
    (f : CommonField) → length (encode f []) ≡ common_field_header_size + length f.raw
unfolding encode
length-encode_nil f = omega (arith, length-append f.raw [])

encode-append : (f : CommonField) (rest : List ℕ) → encode f rest ≡ encode f [] ++ rest
unfolding encode
encode-append f rest =
    ap (λ t. u16_bytes (length f.raw) ++ (f.type % 256 ∷ t)) (sym (append_assoc f.raw [] rest))

-- The buffer with bytes written behind `size`.
placed : Data → ℕ → List ℕ → Data
placed d size bs = record d { mem_block = splice d.mem_block (d.data_start + size) bs }

placed_nil : (d : Data) (size : ℕ) → placed d size [] ≡ d
unfolding placed
placed_nil d size = ap (λ t. record d { mem_block = t }) (splice-nil d.mem_block _)

placed-placed :
    (d : Data) (size n : ℕ) (xs ys : List ℕ)
    → n ≡ length xs
    → placed (placed d size xs) (size + n) ys ≡ placed d size (xs ++ ys)
unfolding placed
placed-placed d size n xs ys e =
    let o : d.data_start + (size + n) ≡ d.data_start + size + length xs = omega arith in
    ap (λ t. record d { mem_block = t })
      (ap (λ j. splice (splice d.mem_block (d.data_start + size) xs) j ys) o
        ∙ splice-splice d.mem_block (d.data_start + size) xs ys)

get_buf_size-placed :
    (d : Data) (size : ℕ) (bs : List ℕ) → get_buf_size (placed d size bs) ≡ get_buf_size d
unfolding get_buf_size block_size placed
get_buf_size-placed d size bs = rw (length-splice d.mem_block (d.data_start + size) bs)

prepend_size-placed :
    (d : Data) (size : ℕ) (bs : List ℕ) → prepend_size (placed d size bs) 0 ≡ prepend_size d 0
unfolding prepend_size available_prepend_space placed
prepend_size-placed d size bs = refl

inside_block :
    (d : Data) (n : ℕ)
    → d.external ≡ false
    → n + prepend_size d 0 ≤ get_buf_size d
    → d.data_start + n ≤ length d.mem_block
unfolding get_buf_size block_size prepend_size available_prepend_space
inside_block d n e room = ground arith

build_field-placed :
    (d : Data) (size : ℕ) (f : CommonField)
    → d.external ≡ false
    → size + (common_field_header_size + length f.raw) + prepend_size d 0 ≤ get_buf_size d
    → build_field d size f
      ≡ some (placed d size (encode f []), size + (common_field_header_size + length f.raw))
unfolding build_field placed
build_field-placed d size f e room =
    let n = size + (common_field_header_size + length f.raw) in
    let fits = inside_block d n e room in
    rw (
      get_buffer-stays d n (omega arith) room,
      write-eq d.mem_block (d.data_start + size) (encode f [])
          (omega (arith, fits, length-encode_nil f)),
    )

build_each-placed :
    (d : Data) (size : ℕ) (fs : List CommonField)
    → d.external ≡ false
    → size + length (bytes_of fs) + prepend_size d 0 ≤ get_buf_size d
    → build_each d size fs ≡ some (placed d size (bytes_of fs), size + length (bytes_of fs))
unfolding build_each
build_each-placed d size [] e room =
    ap (λ t. some (t, size)) (sym (placed_nil d size))
    ∙ ap (λ k. some (placed d size [], k)) (omega arith)
build_each-placed d size (f ∷ fs) e room =
    let bytes = encode f [] in
    let rest = bytes_of fs in
    let n = common_field_header_size + length f.raw in
    let total : length (bytes_of (f ∷ fs)) ≡ n + length rest =
      omega
        (arith, ap length (encode-append f rest), length-append bytes rest, length-encode_nil f) in
    let later = build_each-placed (placed d size bytes) (size + n) fs (unfold placed in e) (
      omega
        (arith, total, room, get_buf_size-placed d size bytes, prepend_size-placed d size bytes)) in
    rw (build_each, build_field-placed d size f e (omega (arith, total, room))) later
    ∙ ap (λ t. some (t, size + n + length rest))
        (placed-placed d size n bytes rest (sym (length-encode_nil f))
          ∙ ap (placed d size) (sym (encode-append f rest)))
    ∙ ap (λ k. some (placed d size (bytes_of (f ∷ fs)), k)) (omega (arith, total))

zapped-HasRoom :
    (d : Data) (offset : ℕ) (bytes : List ℕ) → HasRoom d offset bytes → HasRoom (zap d) offset bytes
unfolding zap prepend_size available_prepend_space get_buf_size block_size
zapped-HasRoom d offset bytes h = record {
  internal = h.internal;
  room = ground (arith, h.room, length-replicate {A = ℕ} (length d.mem_block) 0);
  small = h.small;
}

-- Where the buffer has the room, BuildFields returns, and behind the offset the buffer holds the
-- fields, one behind the other: what holds of those bytes holds of its contents.
pub build_fields-reads :
    (P : List ℕ → Type 0) (d : Data) (offset : ℕ) (fs : List CommonField)
    → HasRoom d offset (bytes_of fs)
    → P (bytes_of fs)
    → (d' : Data) × (build_fields d offset fs ≡ some d') × P (drop offset (contents d'))
unfolding build_fields placed to_option
build_fields-reads P d offset fs h p =
    let z = zapped-HasRoom d offset (bytes_of fs) h in
    let n = length (bytes_of fs) in
    let room : (zap d).data_start + (offset + n) ≤ length (zap d).mem_block =
      inside_block (zap d) (offset + n) z.internal z.room in
    let swap : offset + n ≡ n + offset = omega arith in
    (
      written (zap d) offset (bytes_of fs) (n + offset),
      rw (
        build_each-placed (zap d) offset fs z.internal z.room,
        swap,
        int_of-small (n + offset) (omega (arith, h.small)),
        release_buffer-written (zap d) offset (bytes_of fs) z.internal room,
      ),
      subst P (sym (drop-contents-written (zap d) offset (bytes_of fs) z.internal room)) p,
    )
