-- ===== src/RawChannel/Carries.antt =====
-- Both ends of a raw channel together, src/m_raw_channel.cc.
use barry.Prelude.{
  ℕ, suc, ◌+◌, ◌-◌, ◌/◌, ◌%◌, ◌≤◌, ◌<◌, ◌≡◌, ap, ◌∙◌, true, false, Option, none, some, List, [],
  ◌∷◌, ◌++◌, if◌then◌else◌, ltb, leb, length, take, drop, splice, arith, pos, splice-zero,
  take-append, le→leb, take_all, length-splice, take-drop-splice,
}
use barry.Protocol.{u16_bytes, size_field, check_size}
use barry.Data.{
  Data, get_buffer, contents, get_data, release_buffer, released, not_internal, too_large,
  get_buf_size, block_size,
}
use barry.RawChannel.Transfer.{
  Sent, sent, data_too_large, pending, send, raw_send, fill_buffer, received, not_released, receive,
  send_packet, hand_over,
}
use barry.RawChannel.{
  Reason, RawChannel, handle_all, valid, validate_data_packet, channelpacket_max_data_size,
}

-- The packet with this data.
abbrev pub channel_packet : ℕ → List ℕ → List ℕ
channel_packet socket bytes = u16_bytes socket ++ (u16_bytes (4 + length bytes) ++ bytes)

raw_send-fill_buffer :
    (socket : ℕ) (buffer bytes : List ℕ)
    → length buffer ≡ 4 + channelpacket_max_data_size
    → 0 < length bytes
    → length bytes ≤ channelpacket_max_data_size
    → raw_send socket (take (4 + length bytes) (fill_buffer buffer bytes))
      ≡ channel_packet socket bytes
unfolding raw_send fill_buffer
raw_send-fill_buffer socket (x ∷ y ∷ z ∷ w ∷ rest) bytes h some_bytes short =
    let n = length bytes in
    let four : 4 + n ≡ suc (suc (suc (suc n))) = omega arith in
    let room : length bytes ≤ length rest = omega arith in
    let header : leb 5 (suc (suc (suc (suc n)))) ≡ true = ground arith in
    let front : List ℕ → List ℕ = λ l. x ∷ y ∷ (4 + n) % 256 ∷ (4 + n) / 256 % 256 ∷ l in
    let behind : splice (splice rest 0 []) 0 bytes ≡ bytes ++ drop n rest =
      ap (λ l. splice l 0 bytes) (splice-zero rest [] (omega arith))
      ∙ splice-zero rest bytes room in
    let taken : take (4 + n) (fill_buffer (x ∷ y ∷ z ∷ w ∷ rest) bytes) ≡ front bytes =
      ap (λ k. take k (front (splice (splice rest 0 []) 0 bytes))) four
      ∙ (ap (λ l. front (take n l)) behind ∙ ap front (take-append bytes (drop n rest))) in
    ap (raw_send socket) taken ∙ rw header
raw_send-fill_buffer socket [] bytes h some_bytes short = absurd (omega arith)
raw_send-fill_buffer socket (x ∷ []) bytes h some_bytes short = absurd (omega arith)
raw_send-fill_buffer socket (x ∷ y ∷ []) bytes h some_bytes short = absurd (omega arith)
raw_send-fill_buffer socket (x ∷ y ∷ z ∷ []) bytes h some_bytes short = absurd (omega arith)

validate_data_packet-valid :
    (socket : ℕ) (bytes : List ℕ)
    → length bytes ≤ channelpacket_max_data_size
    → validate_data_packet (channel_packet socket bytes) ≡ valid
unfolding validate_data_packet size_field check_size
validate_data_packet-valid socket bytes short = ground arith

release_buffer-fits :
    (d : Data) (n : ℕ)
    → d.external ≡ false
    → n ≤ length d.mem_block - d.data_start
    → release_buffer d (pos n) ≡ released (record d { data_size = n })
unfolding release_buffer get_buf_size block_size
release_buffer-fits d n internal fits =
    let room = length d.mem_block - d.data_start in
    let size : Data = record d { data_size = n } in
    (λ i.
      if internal i
      then not_internal
      else if leb n (if internal i then 0 else room)
      then released size
      else too_large)
    ∙ ap (λ b. if b then released size else too_large) (le→leb n room fits)

-- What `Receive` leaves in a buffer with room for the data.
hand_over-room :
    (d d' : Data) (bytes : List ℕ)
    → get_buffer d 0 ≡ some d'
    → d'.external ≡ false
    → d'.data_start + length bytes ≤ length d'.mem_block
    → (out : Data) × (hand_over d bytes ≡ received out) × (contents out ≡ bytes)
unfolding hand_over contents get_data
hand_over-room d d' bytes e internal room =
    let block = splice d'.mem_block d'.data_start bytes in
    let put : Data = record d' { mem_block = block } in
    let fits : leb (d'.data_start + length bytes) (length d'.mem_block) ≡ true = le→leb _ _ room in
    let out =
      release_buffer-fits put (length bytes) internal
        (omega (arith, length-splice d'.mem_block d'.data_start bytes)) in
    (
      record put { data_size = length bytes },
      simp (hand_over, e, fits)
          (ap (λ r. elim r [ released d'' ↦ received d'' | _ ↦ not_released ]) out),
      rw internal (take-drop-splice d'.data_start d'.mem_block bytes room),
    )

-- The receiving end: no callback, no pending error, and a buffer whose memory, as GetBuffer leaves
-- it, has room for `n` bytes.
pub record Listens (peer : RawChannel) (d d' : Data) (n : ℕ) : Type 0 where
  pub no_callback : peer.has_callback ≡ false
  pub quiet : peer.pending_error ≡ none
  pub buffer : get_buffer d 0 ≡ some d'
  pub internal : d'.external ≡ false
  pub room : d'.data_start + n ≤ length d'.mem_block

receive-channel_packet :
    (socket : ℕ) (bytes : List ℕ) (peer : RawChannel) (d d' : Data)
    → length bytes ≤ channelpacket_max_data_size
    → Listens peer d d' (length bytes)
    → (out : Data) × (receive peer d (some (channel_packet socket bytes)) ≡ received out)
      × (contents out ≡ bytes)
unfolding receive size_field
receive-channel_packet socket bytes peer d d' short l =
    let (out, e, same) = hand_over-room d d' bytes l.buffer l.internal l.room in
    let p = channel_packet socket bytes in
    let cut : take (size_field p - 4) (drop 4 p) ≡ bytes =
      take_all (size_field p - 4) bytes (omega arith) in
    let ok : validate_data_packet p ≡ valid = validate_data_packet-valid socket bytes short in
    (out, simp (receive, l.no_callback, l.quiet, ok) (ap (hand_over d) cut ∙ e), same)

send-quiet :
    (socket : ℕ) (c : RawChannel) (bytes : List ℕ)
    → c.pending_error ≡ none
    → length c.send_buffer ≡ 4 + channelpacket_max_data_size
    → 0 < length bytes
    → length bytes ≤ channelpacket_max_data_size
    → send socket c bytes (record { events = []; failure = none }) ≡ record {
      ending = sent;
      channel = record c { send_buffer = fill_buffer c.send_buffer bytes };
      wire = channel_packet socket bytes ∷ [];
    }
unfolding send send_packet handle_all
send-quiet socket c bytes quiet buffer some_bytes short =
    let after : RawChannel = record c { send_buffer = fill_buffer c.send_buffer bytes } in
    let out = raw_send socket (take (4 + length bytes) after.send_buffer) in
    let fits : ltb (4 + channelpacket_max_data_size) (4 + length bytes) ≡ false = ground arith in
    let long : Sent = record { ending = data_too_large; channel = c; wire = [] } in
    let last : Option Reason → Sent = λ o. elim o [
      | some why ↦ record { ending = pending why; channel = after; wire = out ∷ [] }
      | none ↦ record { ending = sent; channel = after; wire = out ∷ [] }
    ] in
    let first : Option Reason → Sent → Sent = λ o next. elim o [
      | some why ↦ record { ending = pending why; channel = c; wire = [] }
      | none ↦ next
    ] in
    ap (λ b. if b then long else first c.pending_error (last c.pending_error)) fits
    ∙ ((λ i. first (quiet i) (last (quiet i)))
        ∙ ap (λ p. record { ending = sent; channel = after; wire = p ∷ [] })
            (raw_send-fill_buffer socket c.send_buffer bytes buffer some_bytes short))

-- Data that is not empty and not too long, sent while nothing else happens on a channel without a
-- pending error, leaves as one packet; a listening end with room for the data receives from that
-- packet the data, whole and unchanged.
pub carries :
    (socket : ℕ) (c peer : RawChannel) (bytes : List ℕ) (d d' : Data)
    → c.pending_error ≡ none
    → length c.send_buffer ≡ 4 + channelpacket_max_data_size
    → 0 < length bytes
    → length bytes ≤ channelpacket_max_data_size
    → Listens peer d d' (length bytes)
    → let s = send socket c bytes (record { events = []; failure = none }) in
      (p : List ℕ) × (out : Data) × (s.ending ≡ sent)
      × (s.wire ≡ p ∷ [])
      × (receive peer d (some p) ≡ received out)
      × (contents out ≡ bytes)
carries socket c peer bytes d d' quiet buffer some_bytes short l =
    let e = send-quiet socket c bytes quiet buffer some_bytes short in
    let (out, got, same) = receive-channel_packet socket bytes peer d d' short l in
    (channel_packet socket bytes, out, ap (λ s. s.ending) e, ap (λ s. s.wire) e, got, same)
