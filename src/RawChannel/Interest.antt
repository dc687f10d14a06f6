-- ===== src/RawChannel/Interest.antt =====
-- The interest of the mode in socket zero, src/m_raw_channel.cc.
use barry.Prelude.{ℕ, ◌+◌, ◌≡◌, refl, Bool, false, List, [], ◌∷◌, if◌then◌else◌, arith}
use barry.RawChannel.{
  RawChannel, new_channel, on_open, close, Event, zero_packet, data_packet, error, handle,
  handle_all, channel_of, tell, set_pending_error, unregister_zero_socket_interest, zero_command,
  handle_received_zero_packet, handle_received_data, handle_error,
}

-- Each interest was given back, but for the one that is registered.
abbrev IsBalanced : ℕ → RawChannel → Type 0
IsBalanced n c = (c.releases + (if c.zero_registered then 1 else 0) ≡ n) × (c.interests ≡ n)

handle-IsBalanced :
    (n : ℕ) (c : RawChannel) (e : Event) → IsBalanced n c → IsBalanced n (channel_of (handle c e))
unfolding handle handle_received_zero_packet handle_received_data handle_error zero_command
    unregister_zero_socket_interest set_pending_error tell
handle-IsBalanced n c (zero_packet packet) h = ground arith
handle-IsBalanced n c (data_packet packet) h = ground arith
handle-IsBalanced n c (error what) h = ground arith

handle_all-IsBalanced :
    (n : ℕ) (c : RawChannel) (es : List Event) → IsBalanced n c → IsBalanced n (handle_all c es)
unfolding handle_all
handle_all-IsBalanced n c [] h = h
handle_all-IsBalanced n c (e ∷ es) h =
    handle_all-IsBalanced n (channel_of (handle c e)) es (handle-IsBalanced n c e h)

close-IsBalanced :
    (n : ℕ) (c : RawChannel)
    → IsBalanced n c
    → ((close c).releases ≡ n) × ((close c).interests ≡ n) × ((close c).zero_registered ≡ false)
unfolding close unregister_zero_socket_interest
close-IsBalanced n c h = ground arith

-- A channel that was opened once and then closed, with any events between, registered its interest
-- in socket zero once and gave it back once, whether the events or the end of the channel made it.
pub interest-once :
    (with_callback : Bool) (buffer : List ℕ) (es : List Event)
    → let c : RawChannel = close (handle_all (on_open (new_channel with_callback buffer)) es) in
      (c.releases ≡ 1) × (c.interests ≡ 1) × (c.zero_registered ≡ false)
unfolding on_open
interest-once with_callback buffer es =
    close-IsBalanced 1 (handle_all (on_open (new_channel with_callback buffer)) es)
      (handle_all-IsBalanced 1 (on_open (new_channel with_callback buffer)) es (refl, refl))
