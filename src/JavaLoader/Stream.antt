-- ===== src/JavaLoader/Stream.antt =====
-- `SendStream` of src/m_javaloader.cc on any input and any answers.
use barry.Prelude.{
  ℕ, zero, suc, ◌+◌, ◌-◌, ◌%◌, ◌^◌, ◌≤◌, ◌<◌, ◌≡◌, refl, sym, ap, ◌∙◌, Bool, true, false, Option,
  none, some, List, [], ◌∷◌, ◌++◌, ◌==◌, ltb, if◌then◌else◌, length, take, drop, arith, All,
  length-take, take_all, length-drop, take-add, drop-drop,
}
use mathlib.Core.List.{append_assoc, append-nil}
use barry.Protocol.{u16_bytes}
use barry.JavaLoader.{
  JlPacket, Loader, jl_error, socket_failed, Streamed, streamed, failed, simple_cmd, simple_data,
  put_data, set_cod_size, set_cod_size_code, send_data_code, big_endian, packet, max_data_size,
  piece_size, refusal, send_piece, send_loop, send_stream,
}

-- The two packets of a command with data.
abbrev pub command_packets : ℕ → ℕ → ℕ → List ℕ → List (List ℕ)
command_packets socket code unknown bytes =
    (u16_bytes socket ++ (u16_bytes 8 ++ (code % 256 ∷ unknown % 256 ∷ u16_bytes (length bytes))))
    ∷ (u16_bytes socket ++ (u16_bytes (length bytes + 4) ++ bytes))
    ∷ []

abbrev pub piece_packets : ℕ → List (List ℕ) → List (List ℕ)
piece_packets socket [] = []
piece_packets socket (p ∷ ps) = command_packets socket send_data_code 0 p ++ piece_packets socket ps

abbrev pub joined : List (List ℕ) → List ℕ
joined [] = []
joined (p ∷ ps) = p ++ joined ps

-- A piece that is sent: not empty, and no longer than a packet holds.
abbrev pub IsPiece : List ℕ → Type 0
IsPiece p = (0 < length p) × (length p ≤ max_data_size)

-- The bytes of the module were sent, in pieces.
pub record Carried (n : ℕ) (input rest : List ℕ) (w v : Loader) : Type 0 where
  pub pieces : List (List ℕ)
  pub all_pieces : All IsPiece pieces
  pub whole : n ≤ length input
  pub same_bytes : joined pieces ≡ take n input
  pub left : rest ≡ drop n input
  pub sent : v.sent ≡ w.sent ++ piece_packets w.socket pieces
  pub same_socket : v.socket ≡ w.socket

simple_data-short :
    (socket : ℕ) (bytes : List ℕ)
    → length bytes ≤ max_data_size
    → simple_data socket bytes ≡ some (u16_bytes socket ++ (u16_bytes (length bytes + 4) ++ bytes))
unfolding simple_data
simple_data-short socket bytes h =
    let size : length bytes % 2 ^ 16 ≡ length bytes = omega arith in
    let fits : ltb (2 ^ 16 - 1) (length bytes + 4) ≡ false = ground arith in
    rw (simple_data, size, fits, take_all (length bytes) bytes (omega arith))

-- The packet of a piece.
abbrev piece_packet : ℕ → List ℕ → JlPacket
piece_packet socket bytes = record {
  cmd = u16_bytes socket ++ (u16_bytes 8 ++ (send_data_code ∷ 0 ∷ u16_bytes (length bytes)));
  data_bytes = u16_bytes socket ++ (u16_bytes (length bytes + 4) ++ bytes);
}

put_data-short :
    (socket : ℕ) (bytes : List ℕ)
    → length bytes ≤ max_data_size
    → put_data socket bytes ≡ some (piece_packet socket bytes)
unfolding put_data simple_cmd
put_data-short socket bytes h = rw (put_data, simple_data-short socket bytes h)

send_piece-streamed :
    (size : ℕ) (input rest : List ℕ) (w v : Loader)
    → size ≤ max_data_size
    → send_piece size input w ≡ streamed rest v
    → (size ≤ length input)
      × (rest ≡ drop size input)
      × (v.socket ≡ w.socket)
      × (v.sent ≡ w.sent ++ command_packets w.socket send_data_code 0 (take size input))
unfolding send_piece packet refusal
send_piece-streamed size input rest w v small h =
    let short : length (take size input) ≤ max_data_size = omega (arith, length-take size input) in
    let put = put_data-short w.socket (take size input) short in ground (arith, h, put)

-- Where the call returned, the bytes were carried.
abbrev pub Done : ℕ → List ℕ → Loader → Streamed → Type 0
Done n input w (streamed rest v) = Carried n input rest w v
Done n input w (failed t v) = Unit

module _ (k m n : ℕ) (input rest : List ℕ) (w v : Loader) (some_bytes : 0 < k)
    (small : k ≤ max_data_size) (sum : k + m ≡ n) (fits : k ≤ length input)
    (left : rest ≡ drop k input) (same : v.socket ≡ w.socket)
    (sent : v.sent ≡ w.sent ++ command_packets w.socket send_data_code 0 (take k input)) where
  Carried-cons : (r : List ℕ) (u : Loader) → Carried m rest r v u → Carried n input r w u
  Carried-cons r u c =
      let piece = take k input in
      let long : length piece ≡ k = omega (arith, length-take k input) in
      let after : length rest ≡ length input - k = ap length left ∙ length-drop k input in
      let first = command_packets w.socket send_data_code 0 piece in
      record {
        pieces = piece ∷ c.pieces;
        all_pieces = ((omega arith, omega arith), c.all_pieces);
        whole = omega (arith, c.whole);
        same_bytes =
            ap (λ t. piece ++ t) (c.same_bytes ∙ ap (take m) left)
            ∙ (take-add k m input ∙ ap (λ j. take j input) sum);
        left = c.left ∙ (ap (drop m) left ∙ (drop-drop k m input ∙ ap (λ j. drop j input) sum));
        sent =
            c.sent
            ∙ ((λ i. sent i ++ piece_packets (same i) c.pieces)
                ∙ append_assoc w.sent first (piece_packets w.socket c.pieces));
        same_socket = c.same_socket ∙ same;
      }

  Done-cons : (x : Streamed) → Done m rest v x → Done n input w x
  Done-cons (streamed r u) c = Carried-cons r u c
  Done-cons (failed t u) c = tt

send_loop-Done :
    (fuel n : ℕ) (input : List ℕ) (w : Loader)
    → n ≤ fuel
    → (x : Streamed) × (send_loop fuel n input w ≡ some x) × Done n input w x
unfolding send_loop
send_loop-Done fuel zero input w h = (
  streamed input w,
  refl,
  record {
    pieces = [];
    all_pieces = tt;
    whole = omega arith;
    same_bytes = refl;
    left = refl;
    sent = sym (append-nil w.sent);
    same_socket = refl;
  },
)
send_loop-Done zero (suc n) input w h = absurd (omega arith)
send_loop-Done (suc fuel) (suc n) input w h =
    let k = piece_size (suc n) in
    let less : suc n - k ≤ fuel = ground arith in
    go (send_piece k input w) refl (λ rest v. send_loop-Done fuel (suc n - k) rest v less)
  where
    go :
        (s : Streamed)
        → send_piece (piece_size (suc n)) input w ≡ s
        → ((rest : List ℕ) (v : Loader)
            → (x : Streamed) × (send_loop fuel (suc n - piece_size (suc n)) rest v ≡ some x)
              × Done (suc n - piece_size (suc n)) rest v x)
        → (x : Streamed) × (Path
            (Option Streamed)
            (elim s as (λ s. Option Streamed) [
              | failed t v ↦ some (failed t v)
              | streamed rest v ↦ send_loop fuel (suc n - piece_size (suc n)) rest v
            ])
            (some x))
          × Done (suc n) input w x
    go (failed t v) e ih = (failed t v, refl, tt)
    go (streamed rest v) e ih =
        let (fits, left, same, sent) =
          send_piece-streamed (piece_size (suc n)) input rest w v (ground arith) e in
        let (x, looped, d) = ih rest v in
        (
          x,
          looped,
          Done-cons (piece_size (suc n)) (suc n - piece_size (suc n)) (suc n) input rest w v
              (ground arith) (ground arith) (ground arith) fits left same sent x d,
        )

-- What `SendStream` has sent where it returns.
pub record Loaded (n : ℕ) (input rest : List ℕ) (w v : Loader) : Type 0 where
  pub pieces : List (List ℕ)
  pub all_pieces : All IsPiece pieces
  pub whole : n ≤ length input
  pub same_bytes : joined pieces ≡ take n input
  pub left : rest ≡ drop n input
  pub sent :
      v.sent
      ≡ w.sent
        ++ (command_packets w.socket set_cod_size_code 1 (big_endian n)
            ++ piece_packets w.socket pieces)

-- A call that returned has sent the module.
abbrev pub IsLoaded : ℕ → List ℕ → Loader → Streamed → Type 0
IsLoaded n input w (streamed rest v) = Loaded n input rest w v
IsLoaded n input w (failed t v) = Unit

Loaded-cons :
    (n : ℕ) (input : List ℕ) (w v : Loader) (x : Streamed)
    → v.socket ≡ w.socket
    → v.sent ≡ w.sent ++ command_packets w.socket set_cod_size_code 1 (big_endian n)
    → Done n input v x
    → IsLoaded n input w x
Loaded-cons n input w v (failed t u) same sent d = tt
Loaded-cons n input w v (streamed rest u) same sent d = record {
  pieces = d.pieces;
  all_pieces = d.all_pieces;
  whole = d.whole;
  same_bytes = d.same_bytes;
  left = d.left;
  sent =
      d.sent
      ∙ ((λ i. sent i ++ piece_packets (same i) d.pieces)
          ∙ append_assoc w.sent (command_packets w.socket set_cod_size_code 1 (big_endian n))
              (piece_packets w.socket d.pieces));
}

-- `SendStream` ends, whatever the device answers. Where it returns, the input held the whole
-- module, and the device was sent its size and its bytes, in their order and in pieces that are
-- not empty and fit a packet; what follows the module is left in the input.
pub send_stream-IsLoaded :
    (n : ℕ) (input : List ℕ) (w : Loader)
    → (x : Streamed) × (send_stream n input w ≡ some x) × IsLoaded n input w x
unfolding send_stream set_cod_size simple_cmd simple_data packet
send_stream-IsLoaded n input w = by_answer w.answers
  where
    start : List (Option ℕ) → Loader
    start answers = record w {
      sent = w.sent ++ command_packets w.socket set_cod_size_code 1 (big_endian n);
      answers = answers;
    }

    by_code :
        (b : Bool) (code : ℕ) (answers : List (Option ℕ))
        → (x : Streamed) × ((if b
              then send_loop n n input (start answers)
              else some (failed (jl_error code) (start answers)))
            ≡ some x)
          × IsLoaded n input w x
    by_code false code answers = (failed (jl_error code) (start answers), refl, tt)
    by_code true code answers =
        let (x, looped, d) = send_loop-Done n n input (start answers) (omega arith) in
        (x, looped, Loaded-cons n input w (start answers) x refl refl d)

    by_answer :
        (answers : List (Option ℕ))
        → (x : Streamed) × (send_stream n input (record w { answers = answers }) ≡ some x)
          × IsLoaded n input w x
    by_answer [] = (failed socket_failed (start []), refl, tt)
    by_answer (none ∷ answers) = (failed socket_failed (start answers), refl, tt)
    by_answer (some code ∷ answers) = by_code (code == 0x64) code answers
