-- ===== src/Examples/Buffers.antt =====
-- Examples on the buffer class and the PPP filter.
use barry.Prelude.{
  inl, inr, arith, ℕ, ◌+◌, ◌≡◌, refl, true, false, some, List, [], ◌∷◌, ◌++◌, pos, negsuc, length,
  take, drop, ◌>>=◌,
}
use barry.Data.{
  block_size, Data, contents, IsValid, append, prepend, mem_cpy, make_space, release_buffer,
  released,
}
use barry.Data.Space.{IsSpaced, make_space_lem}
use barry.Data.Contents.{Holds, append_lem, prepend_lem, mem_cpy_lem}
use barry.Data.Release.{release_buffer_loses_last}
use barry.PppFilter.{PppFilter, filter, filter_loop}
use barry.PppFilter.Frames.{frame, inside_at_end, last_of, filter_loop-frame, filter_loop-append}
use barry.PppFilter.Fits.{Leaves, write_prepend_lem, Filtered, filter_lem}

-- Four bytes of prepend space, three bytes, and a byte of room.
abbrev small : Data
small = record {
  mem_block = 0 ∷ 0 ∷ 0 ∷ 0 ∷ 11 ∷ 12 ∷ 13 ∷ 0 ∷ [];
  data_start = 4;
  data_size = 3;
  external_data = [];
  external = false;
  endpoint = pos 2;
}

-- Memory that somebody else owns.
abbrev outside : Data
outside = record {
  mem_block = [];
  data_start = 0;
  data_size = 2;
  external_data = 21 ∷ 22 ∷ [];
  external = true;
  endpoint = negsuc 0;
}

small-IsValid : IsValid small
small-IsValid = record { fits = omega arith }

outside-IsValid : IsValid outside
outside-IsValid = record { fits = omega arith }

make_space_lem_example :
    (d' : Data) × (make_space outside 10 2 ≡ some d') × IsSpaced outside 10 2 d'
make_space_lem_example = make_space_lem outside 10 2 outside-IsValid (inr (inl refl))

append_lem_example :
    (d' : Data) × (append small (14 ∷ 15 ∷ []) ≡ some d')
    × Holds small (contents small ++ (14 ∷ 15 ∷ [])) d'
append_lem_example = append_lem small (14 ∷ 15 ∷ []) small-IsValid

-- More bytes than there is prepend space, in a block that is too small to be reused.
abbrev six_bytes : List ℕ
six_bytes = 1 ∷ 2 ∷ 3 ∷ 4 ∷ 5 ∷ 6 ∷ []

prepend_lem_example :
    (d' : Data) × (prepend small six_bytes ≡ some d') × Holds small (six_bytes ++ contents small) d'
unfolding block_size
prepend_lem_example = prepend_lem small six_bytes small-IsValid (inr (inr (inl (omega arith))))

mem_cpy_lem_example :
    (d' : Data) × (mem_cpy small 1 (31 ∷ []) ≡ some d')
    × Holds small
        (take 1 (contents small)
          ++ ((31 ∷ []) ++ drop (1 + length {A = ℕ} (31 ∷ [])) (contents small)))
        d'
mem_cpy_lem_example = mem_cpy_lem small 1 (31 ∷ []) small-IsValid (omega arith)

release_buffer_loses_last_example :
    (d' : Data) × (release_buffer small (negsuc 0) ≡ released d') × (contents d' ≡ 11 ∷ 12 ∷ [])
release_buffer_loses_last_example = release_buffer_loses_last small (11 ∷ 12 ∷ []) 12 1 refl refl

-- Three frames without their opening flags.
abbrev stream : List ℕ
stream = 1 ∷ 0x7e ∷ 2 ∷ 3 ∷ 0x7e ∷ 4 ∷ []

filter_lem_example :
    (d' : Data) × (filter small stream 5 (last_of false)
      ≡ some (d', last_of (inside_at_end false stream)))
    × Filtered false stream 5 d'
filter_lem_example = filter_lem small stream 5 false small-IsValid (omega arith)

filter_loop-frame_example :
    filter_loop 6 (last_of false) stream
    ≡ some (frame false stream, last_of (inside_at_end false stream))
filter_loop-frame_example = filter_loop-frame 6 false stream (omega arith)

filter_loop-append_example :
    filter_loop (length (stream ++ stream)) (last_of false) (stream ++ stream) ≡ (do
      (out, last) ← filter_loop (length stream) (last_of false) stream
      (out', last') ← filter_loop (length stream) last stream
      some (out ++ out', last'))
filter_loop-append_example = filter_loop-append false stream stream

abbrev idle : PppFilter
idle = record { write_buf = small; ppp_mode = false; last = 0x7e }

write_prepend_lem_example : (f' : PppFilter) × Leaves idle false (0x7e ∷ stream) 4 f'
write_prepend_lem_example =
    write_prepend_lem idle (0x7e ∷ stream) 4 false small-IsValid (omega arith) refl
