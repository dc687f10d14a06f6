-- ===== src/RawChannel.antt =====
-- The raw channel mode of src/m_raw_channel.cc.
--
-- The routing queue calls the handlers from another thread; here each call is an `Event`, and
-- those that arrive while `Send` waits for the device are given to it. `told` is what the callback
-- was called with, and `interests` and `releases` count the calls of RegisterInterest(0) and
-- UnregisterInterest(0) of the queue. The text of an error is the reason that it names.
pub mod Pending
pub mod Interest
pub mod Transfer
pub mod Carries
use barry.Prelude.{
  ℕ, suc, Bool, true, false, Option, none, some, List, [], ◌∷◌, ◌++◌, ◌==◌, if◌then◌else◌, length,
  drop,
}
use barry.Protocol.{packet_header_size, check_size, socket_field, size_field, command_field}
use barry.Protocol.Command

-- `SB_CHANNELPACKET_HEADER_SIZE`.
abbrev pub channelpacket_header_size : ℕ
channelpacket_header_size = 4

abbrev pub channelpacket_max_data_size : ℕ
channelpacket_max_data_size = 0x3FFC

pub data Reason : Type 0 where
  not_for_socket_zero unexpected_zero_packet data_without_callback : Reason
  socket_error : List ℕ → Reason

pub data Notice : Type 0 where
  data_received : List ℕ → Notice
  channel_error : Reason → Notice
  channel_close : Notice

pub record RawChannel : Type 0 where
  pub has_callback : Bool
  pub send_buffer : List ℕ
  pub zero_registered : Bool
  pub pending_error : Option Reason
  pub told : List Notice
  pub interests : ℕ
  pub releases : ℕ

-- The two constructors, after `InitBuffer`: `buffer` is what the new block holds.
abbrev pub new_channel : Bool → List ℕ → RawChannel
new_channel with_callback buffer = record {
  has_callback = with_callback;
  send_buffer = buffer;
  zero_registered = false;
  pending_error = none;
  told = [];
  interests = 0;
  releases = 0;
}

unfoldable pub on_open : RawChannel → RawChannel
on_open c = record c { zero_registered = true; interests = suc c.interests }

unfoldable pub unregister_zero_socket_interest : RawChannel → RawChannel
unregister_zero_socket_interest c =
    if c.zero_registered then record c { releases = suc c.releases; zero_registered = false } else c

-- The destructor. What it frees is gone with the channel.
unfoldable pub close : RawChannel → RawChannel
unfolding unregister_zero_socket_interest
close c = unregister_zero_socket_interest c

unfoldable pub set_pending_error : RawChannel → Reason → RawChannel
set_pending_error c why = elim c.pending_error [
  | some e ↦ c
  | none ↦ record c { pending_error = some why }
]

unfoldable pub tell : RawChannel → Notice → RawChannel
tell c n = record c { told = c.told ++ (n ∷ []) }

pub data Handled : Type 0 where
  handled : RawChannel → Handled
  bad_size : RawChannel → Handled
  size_mismatch : RawChannel → Handled

-- `HandleReceivedZeroPacket`: the switch, and the test before it, which does not return.
unfoldable pub zero_command : RawChannel → List ℕ → RawChannel
zero_command c packet =
    let command = command_field packet in
    let open_channel = unregister_zero_socket_interest c in
    if command == Command.close_socket
    then if c.has_callback then tell open_channel channel_close else open_channel
    else if command == Command.remote_close_socket
    then if c.has_callback then tell open_channel channel_close else open_channel
    else if c.has_callback
    then tell open_channel (channel_error unexpected_zero_packet)
    else set_pending_error open_channel unexpected_zero_packet

unfoldable pub handle_received_zero_packet : RawChannel → List ℕ → Handled
handle_received_zero_packet c packet =
    if check_size packet packet_header_size
    then handled (
        zero_command
          (if socket_field packet == 0
            then c
            else set_pending_error (unregister_zero_socket_interest c) not_for_socket_zero)
          packet)
    else bad_size c

pub data Validity : Type 0 where
  valid wrong_size mismatch : Validity

unfoldable pub validate_data_packet : List ℕ → Validity
validate_data_packet packet =
    if check_size packet channelpacket_header_size
    then if size_field packet == length packet then valid else mismatch
    else wrong_size

unfoldable pub handle_received_data : RawChannel → List ℕ → Handled
handle_received_data c packet = elim (validate_data_packet packet) [
  | valid ↦ handled (
      if c.has_callback
      then tell c (data_received (drop channelpacket_header_size packet))
      else set_pending_error c data_without_callback)
  | wrong_size ↦ bad_size c
  | mismatch ↦ size_mismatch c
]

unfoldable pub handle_error : RawChannel → List ℕ → RawChannel
handle_error c what =
    if c.has_callback
    then tell c (channel_error (socket_error what))
    else set_pending_error c (socket_error what)

-- What the queue calls the two handler objects with. Errors of both sockets arrive alike.
pub data Event : Type 0 where
  zero_packet data_packet error : List ℕ → Event

unfoldable pub handle : RawChannel → Event → Handled
handle c (zero_packet packet) = handle_received_zero_packet c packet
handle c (data_packet packet) = handle_received_data c packet
handle c (error what) = handled (handle_error c what)

abbrev pub channel_of : Handled → RawChannel
channel_of (handled c) = c
channel_of (bad_size c) = c
channel_of (size_mismatch c) = c

-- The channel after the queue made these calls.
unfoldable pub handle_all : RawChannel → List Event → RawChannel
handle_all c [] = c
handle_all c (e ∷ es) = handle_all (channel_of (handle c e)) es
