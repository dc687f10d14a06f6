-- ===== src/RawChannel/Pending.antt =====
-- The errors that a channel without a callback meets, src/m_raw_channel.cc.
use barry.Prelude.{
  ℕ, ◌≡◌, refl, ap, ◌∙◌, ◌+◌, ◌≤◌, Bool, true, false, Option, none, some, List, [], ◌∷◌, ◌==◌,
  if◌then◌else◌, length, ltb, arith,
}
use barry.Protocol.{packet_header_size, check_size, socket_field, command_field}
use barry.Protocol.Command
use barry.Data.{Data}
use barry.RawChannel.Transfer.{Meanwhile, pending, send, error_pending, receive}
use barry.RawChannel.{
  channelpacket_max_data_size, RawChannel, Reason, not_for_socket_zero, unexpected_zero_packet,
  data_without_callback, socket_error, Event, zero_packet, data_packet, error, handle, handle_all,
  channel_of, set_pending_error, unregister_zero_socket_interest, zero_command,
  handle_received_zero_packet, handle_received_data, handle_error, validate_data_packet, valid,
}

abbrev pub is_close : ℕ → Bool
is_close command =
    if command == Command.close_socket then true else command == Command.remote_close_socket

-- What is wrong with an event, for a channel that takes no data by callback.
abbrev pub problem : Event → Option Reason
problem (zero_packet packet) =
    if check_size packet packet_header_size
    then if socket_field packet == 0
      then if is_close (command_field packet) then none else some unexpected_zero_packet
      else some not_for_socket_zero
    else none
problem (data_packet packet) = elim (validate_data_packet packet) [
  | valid ↦ some data_without_callback
  | _ ↦ none
]
problem (error what) = some (socket_error what)

abbrev pub or_else : Option Reason → Option Reason → Option Reason
or_else none o = o
or_else (some why) o = some why

abbrev pub first_problem : List Event → Option Reason
first_problem [] = none
first_problem (e ∷ es) = or_else (problem e) (first_problem es)

set_pending_error-first :
    (c : RawChannel) (why : Reason)
    → (set_pending_error c why).pending_error ≡ or_else c.pending_error (some why)
unfolding set_pending_error
set_pending_error-first c why = ground arith

handle-problem :
    (c : RawChannel) (e : Event)
    → c.has_callback ≡ false
    → ((channel_of (handle c e)).has_callback ≡ false)
      × ((channel_of (handle c e)).pending_error ≡ or_else c.pending_error (problem e))
unfolding handle handle_received_zero_packet handle_received_data handle_error zero_command
    unregister_zero_socket_interest set_pending_error
handle-problem c (zero_packet packet) h = ground arith
handle-problem c (data_packet packet) h = ground arith
handle-problem c (error what) h = ground arith

or_else_assoc : (a b c : Option Reason) → or_else (or_else a b) c ≡ or_else a (or_else b c)
or_else_assoc none b c = refl
or_else_assoc (some why) b c = refl

pub handle_all-first_problem :
    (c : RawChannel) (es : List Event)
    → c.has_callback ≡ false
    → ((handle_all c es).has_callback ≡ false)
      × ((handle_all c es).pending_error ≡ or_else c.pending_error (first_problem es))
unfolding handle_all
handle_all-first_problem c [] h = (h, ground arith)
handle_all-first_problem c (e ∷ es) h =
    let step = handle-problem c e h in
    let rest = handle_all-first_problem (channel_of (handle c e)) es step.0 in
    (
      rest.0,
      rest.1
          ∙ (ap (λ o. or_else o (first_problem es)) step.1
              ∙ or_else_assoc c.pending_error (problem e) (first_problem es)),
    )

-- Once a problem is among the events of a channel that has no callback and had no pending error,
-- Receive throws the first of the problems, whatever buffer it gets and whatever arrives, and Send
-- of data that is not too long throws it too, gives nothing to the device and changes nothing.
pub stops :
    (c : RawChannel) (es : List Event) (why : Reason) (d : Data) (arrived : Option (List ℕ))
    (socket : ℕ) (bytes : List ℕ) (meanwhile : Meanwhile)
    → c.has_callback ≡ false
    → c.pending_error ≡ none
    → first_problem es ≡ some why
    → length bytes ≤ channelpacket_max_data_size
    → (receive (handle_all c es) d arrived ≡ error_pending why)
      × (send socket (handle_all c es) bytes meanwhile
          ≡ record { ending = pending why; channel = handle_all c es; wire = [] })
unfolding receive send
stops c es why d arrived socket bytes meanwhile h quiet found short =
    let after = handle_all-first_problem c es h in
    let e : (handle_all c es).pending_error ≡ some why =
      after.1 ∙ (ap (λ o. or_else o (first_problem es)) quiet ∙ found) in
    let fits : ltb (4 + channelpacket_max_data_size) (4 + length bytes) ≡ false = ground arith in
    (rw (receive, after.0, e), simp (send, fits, e))
