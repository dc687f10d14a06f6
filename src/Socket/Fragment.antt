-- ===== src/Socket/Fragment.antt =====
-- Fragmentation: `AppendFragment`, `MakeNextFragment` and the loop of `DBFragSend`.
use barry.Prelude.{
  ℕ, zero, suc, ◌+◌, ◌-◌, ◌/◌, ◌%◌, ◌^◌, not, ◌||◌, Option, none, some, List, [], ◌∷◌, ◌++◌, ltb,
  leb, ◌==◌, if◌then◌else◌, length, take, drop, splice, ℤ, pos, negsuc, int_of,
}
use barry.Protocol.{frag_header_size, max_packet_size, min_packet_size, command_field}
use barry.Protocol.Command

-- Sets the size and the command in the header of a packet.
abbrev pub set_header : List ℕ → ℕ → ℕ → List ℕ
set_header p size command = splice p 2 (size % 256 ∷ size / 256 % 256 ∷ command ∷ [])

-- `fragsize` of a fragment. The subtraction wraps around, and the result is converted to an int;
-- 2 ^ 32 stands for the 2 ^ 64 of size_t, which the conversion cannot tell from it.
abbrev pub frag_size : List ℕ → ℤ
frag_size fragment = int_of (length fragment + 2 ^ 32 - frag_header_size)

-- The copy of `n` bytes of the fragment to `size` bytes behind the start of `whole`, and
-- `ReleaseBuffer` with the sum, an int. `none`: the sum has no int, or the copy leaves the fragment.
unfoldable pub copy_to : List ℕ → ℕ → List ℕ → ℕ → Option (List ℕ)
copy_to whole size fragment n =
    if leb (2 ^ 31) (size + n)
    then none
    else if ltb (length fragment) (frag_header_size + n)
    then none
    else let joined = take size whole ++ take n (drop frag_header_size fragment) in
      some (set_header joined (length joined) Command.db_data)

-- `none`: the copy leaves its buffers or `ReleaseBuffer` throws. A negative int is a place before
-- the buffer, or a count near 2 ^ 64.
unfoldable pub append_fragment : List ℕ → List ℕ → Option (List ℕ)
unfolding copy_to
append_fragment whole fragment =
    if length whole == 0
    then some (set_header fragment (length fragment) Command.db_data)
    else elim (int_of (length whole)) [
      | negsuc k ↦ none
      | pos size ↦ elim (frag_size fragment) [
        | negsuc k ↦ none
        | pos n ↦ copy_to whole size fragment n
      ]
    ]

pub data NextFragment : Type 0 where
  -- The fragment, and the next offset or 0.
  made : List ℕ → ℕ → NextFragment
  too_short : NextFragment
  -- The copy reads behind the end of the packet.
  out_of_packet : NextFragment

-- `todo` is an unsigned int.
abbrev pub todo_from : List ℕ → ℕ → ℕ
todo_from whole offset = (length whole + 2 ^ 32 - frag_header_size - offset) % 2 ^ 32

abbrev pub max_fragment : ℕ
max_fragment = max_packet_size - frag_header_size

unfoldable pub copy_fragment : List ℕ → ℕ → ℕ → ℕ → NextFragment
copy_fragment whole offset todo next =
    if ltb (length whole) (frag_header_size + offset + todo)
    then out_of_packet
    else made
        (set_header
          (take frag_header_size whole ++ take todo (drop (frag_header_size + offset) whole))
          (todo + frag_header_size) (if next == 0 then Command.db_data else Command.db_fragmented))
        next

unfoldable pub make_next_fragment : List ℕ → ℕ → NextFragment
unfolding copy_fragment
make_next_fragment whole offset =
    let todo = todo_from whole offset in
    if ltb (length whole) frag_header_size
    then too_short
    else if ltb max_fragment todo
    then copy_fragment whole offset max_fragment (offset + max_fragment)
    else copy_fragment whole offset todo 0

-- The packets that the `do`-`while` hands to `SyncSend`, where that returns. `none`: a call threw
-- or left its packet, or the fuel ran out.
unfoldable pub frag_loop : ℕ → List ℕ → ℕ → Option (List (List ℕ))
frag_loop zero send offset = none
frag_loop (suc fuel) send offset = elim (make_next_fragment send offset) [
  | too_short ↦ none
  | out_of_packet ↦ none
  | made fragment next ↦
      if next == 0
      then some (fragment ∷ [])
      else elim (frag_loop fuel send next) [ none ↦ none | some rest ↦ some (fragment ∷ rest) ]
]

-- What `DBFragSend` sends. `none`: it throws `std::logic_error`. Each round but the last takes
-- a byte at least, so the fuel is enough.
unfoldable pub db_frag_send : List ℕ → Option (List (List ℕ))
unfolding frag_loop command_field
db_frag_send send =
    if ltb (length send) min_packet_size
      || not (command_field send == Command.db_data || command_field send == Command.db_done)
    then none
    else if leb (length send) max_packet_size
    then some (send ∷ [])
    else frag_loop (length send) send 0
