-- ===== src/Socket/Pieces.antt =====
-- One fragment: what `MakeNextFragment` makes of a packet, and what the loop of `Packet` does with it.
use barry.Prelude.{
  ℕ, ◌+◌, ◌-◌, ◌/◌, ◌%◌, ◌^◌, ◌≤◌, ◌<◌, ◌≡◌, sym, ap, ◌∙◌, true, false, some, List, ◌∷◌, ◌++◌, ltb,
  ◌==◌, inl, inr, if◌then◌else◌, leb, false, pos, length-append, int_of, int_of-eq, int_of-small,
  length, take, drop, arith, Bool-cases, drop-drop, take-add, take_all, length-take, length-drop,
  ltb→lt,
}
use barry.Protocol.{frag_header_size, check_size, size_field, command_field, packet_header_size}
use barry.Protocol.Command
use barry.Socket.Fragment.{
  frag_size, copy_to, append_fragment, made, todo_from, max_fragment, copy_fragment,
  make_next_fragment,
}
use barry.Socket.Transfer.{finished, Progress, ends, goes_on, on_data, on_fragment, round}

-- A packet with the socket bytes and the table command of another, and a header of its own.
abbrev pub packet_of : ℕ → ℕ → ℕ → ℕ → ℕ → List ℕ → List ℕ
packet_of s0 s1 table size command body =
    s0 ∷ s1 ∷ size % 256 ∷ size / 256 % 256 ∷ command ∷ table ∷ body

module _ (s0 s1 z0 z1 c table : ℕ) (body : List ℕ) where
  abbrev whole : List ℕ
  whole = s0 ∷ s1 ∷ z0 ∷ z1 ∷ c ∷ table ∷ body

  -- The fragment of `todo` bytes from `offset` on.
  abbrev piece : ℕ → ℕ → ℕ → List ℕ
  piece command offset todo =
      packet_of s0 s1 table (todo + 6) command (take todo (drop offset body))

  copy-eq :
      (offset todo next : ℕ)
      → offset + todo ≤ length body
      → copy_fragment whole offset todo next
        ≡ made
            (piece (if next == 0 then Command.db_data else Command.db_fragmented) offset todo)
            next
  unfolding copy_fragment
  copy-eq offset todo next h =
      let fits : ltb (length whole) (6 + offset + todo) ≡ false = ground arith in
      rw (fits, sym (drop-drop 6 offset whole))

  pub make-eq :
      (offset : ℕ)
      → offset ≤ length body
      → length body + 6 < 2 ^ 31
      → make_next_fragment whole offset ≡ (
          if ltb max_fragment (length body - offset)
          then made (piece Command.db_fragmented offset max_fragment) (offset + max_fragment)
          else made (piece Command.db_data offset (length body - offset)) 0)
  unfolding make_next_fragment
  make-eq offset h small =
      let todo : todo_from whole offset ≡ length body - offset = omega arith in
      let long : ltb (length whole) frag_header_size ≡ false = ground arith in
      let more_left : (offset + max_fragment == 0) ≡ false = ground arith in
      let full =
        ap
          (λ b.
            made (piece (if b then Command.db_data else Command.db_fragmented) offset max_fragment)
              (offset + max_fragment))
          more_left in
      elim (Bool-cases (ltb max_fragment (length body - offset))) [
        | inl more ↦
            rw (long, todo, more)
              (copy-eq offset max_fragment (offset + max_fragment) (omega (arith, ltb→lt _ _ more))
                ∙ full)
        | inr last ↦ rw (long, todo, last) (copy-eq offset (length body - offset) 0 (omega arith))
      ]

pub nonempty : (p : List ℕ) → 0 < length p → (length p == 0) ≡ false
nonempty p h = ground arith

-- The joined fragments, up to `n` bytes of the body.
abbrev pub joined : ℕ → ℕ → ℕ → ℕ → ℕ → List ℕ → Progress
joined s0 s1 table size command body = record {
  receive = packet_of s0 s1 table size command body;
  frag = true;
  blank_count = 0;
}

module _ (s0 s1 table : ℕ) where
  abbrev packet : ℕ → ℕ → List ℕ → List ℕ
  packet size command body = packet_of s0 s1 table size command body

  append-eq :
      (size c size' c' : ℕ) (xs ys : List ℕ)
      → length (xs ++ ys) + 6 < 2 ^ 31
      → append_fragment (packet size c xs) (packet size' c' ys)
        ≡ some (packet (6 + length (xs ++ ys)) Command.db_data (xs ++ ys))
  unfolding append_fragment copy_to
  append-eq size c size' c' xs ys h =
      let p = packet size c xs in
      let q = packet size' c' ys in
      let e = length-append xs ys in
      let some_bytes : (length p == 0) ≡ false = ground arith in
      let whole_size : int_of (length p) ≡ pos (length p) =
        int_of-small (length p) (omega (arith, e)) in
      let frag : frag_size q ≡ pos (length ys) =
        int_of-eq (length q + 2 ^ 32 - frag_header_size) (length ys) (omega (arith, e))
          (omega (arith, e)) in
      let sum : leb (2 ^ 31) (length p + length ys) ≡ false = ground (arith, e) in
      let fits : ltb (length q) (frag_header_size + length ys) ≡ false = ground arith in
      rw
        (
          some_bytes,
          whole_size,
          frag,
          sum,
          fits,
          take_all (length xs) xs (omega arith),
          take_all (length ys) ys (omega arith),
        )
        (ground arith)

  check-eq :
      (n c : ℕ) (xs : List ℕ)
      → length xs ≡ n
      → n + 6 < 65536
      → check_size (packet (n + 6) c xs) packet_header_size ≡ true
  unfolding check_size size_field
  check-eq n c xs e h = ground arith

  round_data :
      (n : ℕ) (xs : List ℕ) (s : Progress)
      → length xs ≡ n
      → n + 6 < 65536
      → round s (packet (n + 6) Command.db_data xs) ≡ on_data s (packet (n + 6) Command.db_data xs)
  unfolding round command_field
  round_data n xs s e h = rw (
    nonempty (packet (n + 6) Command.db_data xs) (omega arith),
    check-eq n Command.db_data xs e h,
  )

  pub round_fragment :
      (n : ℕ) (xs : List ℕ) (s : Progress)
      → length xs ≡ n
      → n + 6 < 65536
      → round s (packet (n + 6) Command.db_fragmented xs)
        ≡ on_fragment s (packet (n + 6) Command.db_fragmented xs)
  unfolding round command_field
  round_fragment n xs s e h = rw (
    nonempty (packet (n + 6) Command.db_fragmented xs) (omega arith),
    check-eq n Command.db_fragmented xs e h,
  )

  -- A piece of the body in the middle, and at the end.
  pub middle :
      (size c offset n : ℕ) (body : List ℕ)
      → length body + 6 < 2 ^ 31
      → offset + n ≤ length body
      → n + 6 < 65536
      → round
          (joined s0 s1 table size c (take offset body))
          (packet (n + 6) Command.db_fragmented (take n (drop offset body)))
        ≡ goes_on (
            joined s0 s1 table
              (6 + length (take (offset + n) body))
              Command.db_data
              (take (offset + n) body))
  unfolding on_fragment
  middle size c offset n body bound h small =
      let ys = take n (drop offset body) in
      let e : length ys ≡ n =
        omega (arith, length-take n (drop offset body), length-drop offset body) in
      let a =
        append-eq size c (n + 6) Command.db_fragmented (take offset body) ys
          (omega (arith, bound, length-append (take offset body) ys, length-take offset body))
        ∙ ap (λ t. some (packet (6 + length t) Command.db_data t)) (take-add offset n body) in
      round_fragment n ys (joined s0 s1 table size c (take offset body)) e small
      ∙ rw (on_fragment, a)

  pub end :
      (size c offset n : ℕ) (body : List ℕ)
      → length body + 6 < 2 ^ 31
      → offset + n ≡ length body
      → n + 6 < 65536
      → round
          (joined s0 s1 table size c (take offset body))
          (packet (n + 6) Command.db_data (take n (drop offset body)))
        ≡ ends (finished (packet (6 + length body) Command.db_data body))
  unfolding on_data
  end size c offset n body bound h small =
      let ys = take n (drop offset body) in
      let e : length ys ≡ n =
        omega (arith, length-take n (drop offset body), length-drop offset body) in
      let all : take offset body ++ ys ≡ body =
        take-add offset n body ∙ take_all (offset + n) body (omega arith) in
      let a =
        append-eq size c (n + 6) Command.db_data (take offset body) ys
          (omega (arith, bound, length-append (take offset body) ys, length-take offset body))
        ∙ ap (λ t. some (packet (6 + length t) Command.db_data t)) all in
      round_data n ys (joined s0 s1 table size c (take offset body)) e small ∙ rw (on_data, a)
