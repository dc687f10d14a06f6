-- ===== src/Socket/Defragment.antt =====
-- What `DBFragSend` sends in fragments, `Packet` puts together again.
use barry.Prelude.{
  ℕ, zero, suc, ◌+◌, ◌-◌, ◌^◌, ◌≤◌, ◌<◌, ◌≡◌, ap, ◌∙◌, true, false, some, List, [], ◌∷◌, ltb, leb,
  ◌==◌, inl, inr, ◌⊎◌, length, take, drop, arith, Bool-cases, length-take, All, ltb→lt,
}
use barry.Protocol.{min_packet_size, command_field, max_packet_size}
use barry.Protocol.Command
use barry.Socket.Fragment.{set_header, max_fragment, frag_loop, db_frag_send}
use barry.Socket.Transfer.{finished, Progress, on_fragment, packet_loop, receive_packets}
use barry.Socket.Pieces.{packet_of, joined, make-eq, round_fragment, middle, end}

-- The fragments of the rest of a packet, which the loop joins to what it has.
pub record Joined (whole : List ℕ) (offset fuel : ℕ) (s : Progress) (result : List ℕ) : Type 0 where
  pub first : List ℕ
  pub rest : List (List ℕ)
  pub sent : frag_loop fuel whole offset ≡ some (first ∷ rest)
  pub joins : packet_loop s first rest ≡ finished result
  pub bounded : All (λ (f : List ℕ). length f ≤ max_packet_size) (first ∷ rest)

module _ (s0 s1 z0 z1 c table : ℕ) (body : List ℕ) (small : length body + 6 < 2 ^ 31) where
  abbrev sending : List ℕ
  sending = s0 ∷ s1 ∷ z0 ∷ z1 ∷ c ∷ table ∷ body

  frag_loop_more :
      (fuel offset : ℕ) (rest : List (List ℕ))
      → offset ≤ length body
      → ltb max_fragment (length body - offset) ≡ true
      → frag_loop fuel sending (offset + max_fragment) ≡ some rest
      → frag_loop (suc fuel) sending offset
        ≡ some (
            packet_of s0 s1 table
              (max_fragment + 6)
              Command.db_fragmented
              (take max_fragment (drop offset body))
            ∷ rest)
  unfolding frag_loop
  frag_loop_more fuel offset rest h more sent =
      let m = make-eq s0 s1 z0 z1 c table body offset h small in
      let left : (offset + max_fragment == 0) ≡ false = ground arith in
      rw (frag_loop, m, more, left, sent)

  frag_loop_last :
      (fuel offset : ℕ)
      → offset ≤ length body
      → ltb max_fragment (length body - offset) ≡ false
      → frag_loop (suc fuel) sending offset
        ≡ some (
            packet_of s0 s1 table
              (length body - offset + 6)
              Command.db_data
              (take (length body - offset) (drop offset body))
            ∷ [])
  unfolding frag_loop
  frag_loop_last fuel offset h last =
      let m = make-eq s0 s1 z0 z1 c table body offset h small in rw (frag_loop, m, last)

  length-piece :
      (offset n command : ℕ)
      → n ≤ max_fragment
      → length (packet_of s0 s1 table (n + 6) command (take n (drop offset body))) ≤ max_packet_size
  length-piece offset n command h = omega (arith, length-take n (drop offset body))

  frag_loop-Joined :
      (fuel offset size command : ℕ)
      → offset ≤ length body
      → length body < fuel + offset
      → Joined sending offset fuel
          (joined s0 s1 table size command (take offset body))
          (packet_of s0 s1 table (6 + length body) Command.db_data body)
  unfolding packet_loop
  frag_loop-Joined zero offset size command h enough = absurd (omega arith)
  frag_loop-Joined (suc fuel) offset size command h enough =
      elim (Bool-cases (ltb max_fragment (length body - offset))) [
        | inl more ↦
            let enough_left = ltb→lt max_fragment (length body - offset) more in
            let next =
              frag_loop-Joined fuel (offset + max_fragment)
                (6 + length (take (offset + max_fragment) body)) Command.db_data
                (omega (arith, enough_left)) (omega arith) in
            record {
              first =
                  packet_of s0 s1 table (max_fragment + 6) Command.db_fragmented
                    (take max_fragment (drop offset body));
              rest = next.first ∷ next.rest;
              sent = frag_loop_more fuel offset (next.first ∷ next.rest) h more next.sent;
              joins =
                  rw
                    (
                      packet_loop,
                      middle s0 s1 table size command offset max_fragment body small
                          (omega (arith, enough_left)) (omega arith),
                    )
                    next.joins;
              bounded = (
                length-piece offset max_fragment Command.db_fragmented (omega arith),
                next.bounded,
              );
            }
        | inr last ↦
            let short : length body - offset ≤ max_fragment = ground arith in
            record {
              first =
                  packet_of s0 s1 table (length body - offset + 6) Command.db_data
                    (take (length body - offset) (drop offset body));
              rest = [];
              sent = frag_loop_last fuel offset h last;
              joins = rw (
                packet_loop,
                end s0 s1 table size command offset (length body - offset) body small (omega arith)
                    (omega arith),
              );
              bounded = (length-piece offset (length body - offset) Command.db_data short, tt);
            }
      ]

-- What a long packet becomes on its way.
pub record Arrives (send : List ℕ) : Type 0 where
  pub packets : List (List ℕ)
  pub sent : db_frag_send send ≡ some packets
  pub arrives : receive_packets packets ≡ finished (set_header send (length send) Command.db_data)
  pub bounded : All (λ (f : List ℕ). length f ≤ max_packet_size) packets

db_frag_send-frag_loop :
    (send : List ℕ)
    → max_packet_size < length send
    → (command_field send ≡ Command.db_data) ⊎ (command_field send ≡ Command.db_done)
    → db_frag_send send ≡ frag_loop (length send) send 0
unfolding db_frag_send
db_frag_send-frag_loop send long (inl kind) =
    let a : ltb (length send) min_packet_size ≡ false = ground arith in
    let b : leb (length send) max_packet_size ≡ false = ground arith in rw (a, kind, b)
db_frag_send-frag_loop send long (inr kind) =
    let a : ltb (length send) min_packet_size ≡ false = ground arith in
    let b : leb (length send) max_packet_size ≡ false = ground arith in rw (a, kind, b)

fragmented-Arrives :
    (s0 s1 z0 z1 c table : ℕ) (body : List ℕ)
    → let send = s0 ∷ s1 ∷ z0 ∷ z1 ∷ c ∷ table ∷ body in
      max_packet_size < length send
      → length send < 2 ^ 31
      → (command_field send ≡ Command.db_data) ⊎ (command_field send ≡ Command.db_done)
      → Arrives send
unfolding receive_packets packet_loop on_fragment
fragmented-Arrives s0 s1 z0 z1 c table body long short kind =
    let send = s0 ∷ s1 ∷ z0 ∷ z1 ∷ c ∷ table ∷ body in
    let small : length body + 6 < 2 ^ 31 = omega arith in
    let more : ltb max_fragment (length body - 0) ≡ true = ground arith in
    let part = take max_fragment body in
    let first = packet_of s0 s1 table (max_fragment + 6) Command.db_fragmented part in
    let next =
      frag_loop-Joined s0 s1 z0 z1 c table body small (5 + length body) max_fragment
        (max_fragment + 6) Command.db_fragmented (omega arith) (omega arith) in
    let sent =
      frag_loop_more s0 s1 z0 z1 c table body small (5 + length body) 0 (next.first ∷ next.rest)
        (omega arith) more next.sent in
    let fuel : length send ≡ suc (5 + length body) = omega arith in
    let start : Progress = record { receive = []; frag = false; blank_count = 0 } in
    let seen =
      round_fragment s0 s1 table max_fragment part start
        (omega (arith, length-take max_fragment body)) (omega arith) in
    record {
      packets = first ∷ next.first ∷ next.rest;
      sent = db_frag_send-frag_loop send long kind ∙ ap (λ n. frag_loop n send 0) fuel ∙ sent;
      arrives =
          rw (packet_loop, seen)
            (next.joins
              ∙ ap (λ n. finished (packet_of s0 s1 table n Command.db_data body)) (omega arith));
      bounded = (
        length-piece s0 s1 z0 z1 c table body small 0 max_fragment Command.db_fragmented
            (omega arith),
        next.bounded,
      );
    }

-- `DBFragSend` sends a packet of more than 1024 bytes (and fewer than 2 ^ 31) with the command
-- `DB_DATA` or `DB_DONE`, and neither throws nor reads outside it: each of the packets it sends
-- has at most 1024 bytes, and the loop of `Packet` that reads these packets in order returns the
-- packet that was sent, with the command `DB_DATA` and its own size, modulo 2 ^ 16, in the header.
pub db_frag_send-receive_packets :
    (send : List ℕ)
    → max_packet_size < length send
    → length send < 2 ^ 31
    → (command_field send ≡ Command.db_data) ⊎ (command_field send ≡ Command.db_done)
    → Arrives send
db_frag_send-receive_packets (s0 ∷ s1 ∷ z0 ∷ z1 ∷ c ∷ table ∷ body) long short kind =
    fragmented-Arrives s0 s1 z0 z1 c table body long short kind
db_frag_send-receive_packets [] long short kind = absurd (omega arith)
db_frag_send-receive_packets (a ∷ []) long short kind = absurd (omega arith)
db_frag_send-receive_packets (a ∷ b ∷ []) long short kind = absurd (omega arith)
db_frag_send-receive_packets (a ∷ b ∷ c ∷ []) long short kind = absurd (omega arith)
db_frag_send-receive_packets (a ∷ b ∷ c ∷ d ∷ []) long short kind = absurd (omega arith)
db_frag_send-receive_packets (a ∷ b ∷ c ∷ d ∷ e ∷ []) long short kind = absurd (omega arith)
