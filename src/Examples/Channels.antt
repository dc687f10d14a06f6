-- ===== src/Examples/Channels.antt =====
-- Examples on the raw channel.
use barry.Prelude.{arith, ℕ, ◌≡◌, refl, true, false, none, some, List, [], ◌∷◌, replicate, negsuc}
use barry.Protocol.{check_size, socket_field, command_field}
use barry.Data.{
  Data, contents, default_data, get_buffer, make_space, get_buf_size, available_prepend_space,
}
use barry.RawChannel.{
  RawChannel, new_channel, on_open, close, Event, zero_packet, error, handle_all, socket_error,
}
use barry.RawChannel.Interest.{interest-once}
use barry.RawChannel.Transfer.{Meanwhile, sent, pending, send, error_pending, receive, received}
use barry.RawChannel.Pending.{stops}
use barry.RawChannel.Carries.{Listens, carries}

abbrev quiet_channel : RawChannel
quiet_channel = new_channel false (replicate 0x4000 0)

-- The device closes the channel, then the bus fails twice.
abbrev bad_events : List Event
bad_events = zero_packet (0 ∷ 0 ∷ 5 ∷ 0 ∷ 0x0b ∷ []) ∷ error (1 ∷ []) ∷ error (2 ∷ []) ∷ []

interest-once_example :
    let c : RawChannel = close (handle_all (on_open (new_channel true [])) bad_events) in
    (c.releases ≡ 1) × (c.interests ≡ 1) × (c.zero_registered ≡ false)
interest-once_example = interest-once true [] bad_events

abbrev no_events : Meanwhile
no_events = record { events = []; failure = none }

stops_example :
    (receive (handle_all quiet_channel bad_events) default_data none
      ≡ error_pending (socket_error (1 ∷ [])))
    × (send 7 (handle_all quiet_channel bad_events) (8 ∷ []) no_events ≡ record {
      ending = pending (socket_error (1 ∷ []));
      channel = handle_all quiet_channel bad_events;
      wire = [];
    })
unfolding check_size socket_field command_field
stops_example =
    stops quiet_channel bad_events (socket_error (1 ∷ [])) default_data none 7 (8 ∷ []) no_events
      refl refl refl (omega arith)

-- An empty buffer that GetBuffer leaves as it is.
abbrev caller_buffer : Data
caller_buffer = record {
  mem_block = replicate 0x4100 0;
  data_start = 0;
  data_size = 0;
  external_data = [];
  external = false;
  endpoint = negsuc 0;
}

quiet_channel-Listens : Listens quiet_channel caller_buffer caller_buffer 3
unfolding get_buffer make_space get_buf_size available_prepend_space
quiet_channel-Listens = record {
  no_callback = refl;
  quiet = refl;
  buffer = refl;
  internal = refl;
  room = omega arith;
}

carries_example :
    let s = send 7 quiet_channel (1 ∷ 2 ∷ 3 ∷ []) no_events in
    (p : List ℕ) × (out : Data) × (s.ending ≡ sent)
    × (s.wire ≡ p ∷ [])
    × (receive quiet_channel caller_buffer (some p) ≡ received out)
    × (contents out ≡ 1 ∷ 2 ∷ 3 ∷ [])
carries_example =
    carries 7 quiet_channel quiet_channel (1 ∷ 2 ∷ 3 ∷ []) caller_buffer caller_buffer refl refl
      (omega arith) (omega arith) quiet_channel-Listens
