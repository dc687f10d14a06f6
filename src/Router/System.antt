-- ===== src/Router/System.antt =====
-- The router with the threads around it: any interleaving of the steps of the reading thread, of
-- clients and of the code that sets the router up. `held` are the buffers in the hands of threads.
use barry.Prelude.{ℕ, ◌≡◌, refl, ap, subst, Option, List, [], ◌∷◌, ◌++◌, true, ℤ, arith}
use barry.DataQueue.{Buffer}
use barry.Router.{
  Router, InterestType, new_router, return_buffer, allocate_buffers, register_interest_and_type,
  change_interest, unregister_interest, socket_read, default_read, set_usb_device, clear_usb_device,
  usb_device_ready, handed,
}
use barry.Router.Reading.{Ending, Read, fetch_buffer, finish_read}
use barry.Router.Invariant.{IsSound, count, count-append}
use barry.Router.Sound.{
  moves, after, hold, SoundRead, return_buffer-IsSound, allocate_buffers-IsSound, register-IsSound,
  change-IsSound, unregister-IsSound, socket_read-IsSound, default_read-IsSound, new_router-IsSound,
}
use barry.Router.ReadSound.{fetch_buffer-IsSound, finish_read-IsSound}

pub record System : Type 0 where
  pub router : Router
  pub held : List Buffer

module _ (data_received : ℕ → Buffer → Router → Ending × Router)
    (on_error : ℕ → Router → Router) where
  pub data Step : System → System → Type 0 where
    set_up :
        (s : System) (dev write_ep read_ep : ℕ) (callback : Option ℕ)
        → Step s (record s { router = set_usb_device s.router dev write_ep read_ep callback })
    tear_down : (s : System) → Step s (record s { router = clear_usb_device s.router })
    allocates : (s : System) (n : ℕ) → Step s (record s { router = allocate_buffers s.router n })
    registers :
        (s : System) (socket : ℕ) (handler : Option ℕ) (type : InterestType)
        → Step s (record s {
          router = after s.router (register_interest_and_type s.router socket handler type);
        })
    changes :
        (s : System) (socket : ℕ) (type : InterestType)
        → Step s (record s { router = after s.router (change_interest s.router socket type) })
    unregisters :
        (s : System) (socket : ℕ)
        → Step s (record s { router = unregister_interest s.router socket })
    fetches :
        (s : System)
        → usb_device_ready s.router ≡ true
        → Step s (record {
          router = (fetch_buffer s.router).1;
          held = (fetch_buffer s.router).0 ∷ s.held;
        })
    finishes :
        (s : System) (xs ys : List Buffer) (b : Buffer) (read : Read)
        → s.held ≡ xs ++ (b ∷ ys)
        → Step s (record {
          router = finish_read data_received on_error s.router b read;
          held = xs ++ ys;
        })
    reads_socket :
        (s : System) (socket : ℕ) (timeout : ℤ) (b : Option Buffer) (r : Router)
        → socket_read s.router socket timeout [] ≡ handed b r
        → Step s (record { router = r; held = hold b s.held })
    reads_default :
        (s : System) (timeout : ℤ) (b : Option Buffer) (r : Router)
        → default_read s.router timeout [] ≡ handed b r
        → Step s (record { router = r; held = hold b s.held })
    hands_back :
        (s : System) (xs ys : List Buffer) (b : Buffer)
        → s.held ≡ xs ++ (b ∷ ys)
        → Step s (record { router = return_buffer s.router b; held = xs ++ ys })

  pub data Reach (s : System) : System → Type 0 where
    here : Reach s s
    next : {t u : System} → Reach s t → Step t u → Reach s u

-- A thread's buffer comes to the front.
pick :
    (xs ys held : List Buffer) (b : Buffer) (r : Router)
    → held ≡ xs ++ (b ∷ ys)
    → IsSound held r
    → IsSound (b ∷ (xs ++ ys)) r
pick xs ys held b r e v =
    moves held (b ∷ (xs ++ ys)) r r v v.sorted v.flag refl
      (λ i. omega (arith, ap (count i) e, count-append i xs (b ∷ ys), count-append i xs ys))

module _ (data_received : ℕ → Buffer → Router → Ending × Router) (on_error : ℕ → Router → Router)
    (data_received-IsSound : (held : List Buffer) (h : ℕ) (b : Buffer) (r : Router)
      → IsSound (b ∷ held) r
      → IsSound (b ∷ held) (data_received h b r).1)
    (on_error-IsSound : (held : List Buffer) (h : ℕ) (r : Router)
      → IsSound held r
      → IsSound held (on_error h r)) where
  Step-IsSound :
      {s u : System}
      → Step data_received on_error s u
      → IsSound s.held s.router
      → IsSound u.held u.router
  unfolding set_usb_device clear_usb_device
  Step-IsSound (set_up s dev write_ep read_ep callback) v =
      moves s.held s.held s.router _ v v.sorted v.flag refl (λ i. refl)
  Step-IsSound (tear_down s) v = moves s.held s.held s.router _ v v.sorted v.flag refl (λ i. refl)
  Step-IsSound (allocates s n) v = allocate_buffers-IsSound s.held s.router n v
  Step-IsSound (registers s socket handler type) v =
      register-IsSound s.held s.router socket handler type v
  Step-IsSound (changes s socket type) v = change-IsSound s.held s.router socket type v
  Step-IsSound (unregisters s socket) v = unregister-IsSound s.held s.router socket v
  Step-IsSound (fetches s ready) v = fetch_buffer-IsSound s.held s.router v
  Step-IsSound (finishes s xs ys b read e) v =
      finish_read-IsSound data_received on_error data_received-IsSound on_error-IsSound (xs ++ ys)
        s.router b read (pick xs ys s.held b s.router e v)
  Step-IsSound (reads_socket s socket timeout b r e) v =
      subst (SoundRead s.held) e (socket_read-IsSound s.held s.router socket timeout v)
  Step-IsSound (reads_default s timeout b r e) v =
      subst (SoundRead s.held) e (default_read-IsSound s.held s.router timeout v)
  Step-IsSound (hands_back s xs ys b e) v =
      return_buffer-IsSound (xs ++ ys) b s.router (pick xs ys s.held b s.router e v)

  -- However the threads interleave, from a new router on, with handlers that keep the invariant:
  -- every buffer that was allocated is in exactly one place, the map has no key twice, and the
  -- interest flag says whether a socket is registered.
  pub Reach-IsSound :
      (n : ℕ) (timeout : ℤ) {u : System}
      → Reach data_received on_error (record { router = new_router n timeout; held = [] }) u
      → IsSound u.held u.router
  Reach-IsSound n timeout here = new_router-IsSound n timeout
  Reach-IsSound n timeout (next reach step) = Step-IsSound step (Reach-IsSound n timeout reach)
