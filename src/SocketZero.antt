-- ===== src/SocketZero.antt =====
-- Socket zero of src/socket.h and src/socket.cc: the handshakes that open a socket.
--
-- A call is a function of the world to a result: what it returns or throws, and the world after it.
-- The world is the state of the SocketZero object and the device as it seems to it: what each later
-- write and read of the device ends with. A call that waits for more than that times out.
pub mod Requests
pub mod Opening
pub mod Costs
pub mod Tries
pub mod Settled
use barry.Prelude.{
  ℕ, ◌+◌, ◌%◌, ◌^◌, Bool, true, false, not, Option, none, some, List, [], ◌∷◌, ◌++◌, ltb, ◌==◌,
  if◌then◌else◌, length,
}
use barry.Protocol.{u16_bytes, sequence_packet_size, sequence_id}

pub data Error : Type 0 where
  no_device usb_error timeout bad_size multiple_pushbacks : Error
  invalid_sequence_packet out_of_sequence : Error
  -- `BadPassword` with the remaining tries, and whether there are too few of them.
  bad_password : ℕ → Bool → Error
  close_on_open bad_opened no_starting_sequence : Error

pub record Zero : Type 0 where
  pub zero_socket_sequence : ℕ
  pub sequence : ℕ
  pub half_open : Bool
  pub challenge_seed : ℕ
  pub remaining_tries : ℕ
  pub mode_sequence_packet_seen : Bool
  -- `m_pushback_buffer`, where `m_pushback` is set.
  pub pushback_buffer : Option (List ℕ)

pub record World : Type 0 where
  pub zero : Zero
  pub has_device : Bool
  -- Whether each later write succeeds.
  pub writes : List Bool
  -- What each later read returns, or that it times out.
  pub incoming : List (Option (List ℕ))
  -- The packets that were written.
  pub sent : List (List ℕ)

pub data Result {ℓ} (A : Type ℓ) : Type ℓ where
  ok : A → World → Result A
  threw : Error → World → Result A

abbrev pub Call {ℓ} : Type ℓ → Type ℓ
Call A = World → Result A

infixl 10 ◌>>=◌
abbrev pub ◌>>=◌ : {A B : Type 0} → Call A → (A → Call B) → Call B
m >>= f = λ w. elim (m w) [ ok a w' ↦ f a w' | threw e w' ↦ threw e w' ]

abbrev pub pure : {A : Type 0} → A → Call A
pure a w = ok a w

abbrev pub throw : {A : Type 0} → Error → Call A
throw e w = threw e w

abbrev pub get : Call Zero
get w = ok w.zero w

abbrev pub set : Zero → Call Bool
set z w = ok true (record w { zero = z })

-- `BulkWrite` of the device.
unfoldable pub bulk_write : List ℕ → Call Bool
bulk_write p w = elim w.writes [
  | [] ↦ threw timeout w
  | b ∷ writes ↦
      if b
      then ok true (record w { writes = writes; sent = w.sent ++ (p ∷ []) })
      else threw usb_error (record w { writes = writes })
]

-- `DefaultRead` of the queue, or `BulkRead` of the device.
unfoldable pub read_device : Call (List ℕ)
read_device w = elim w.incoming [
  | [] ↦ threw timeout w
  | p ∷ incoming ↦ elim p [
    | none ↦ threw timeout (record w { incoming = incoming })
    | some p ↦ ok p (record w { incoming = incoming })
  ]
]

unfoldable pub check_device : Call Bool
check_device w = if w.has_device then ok true w else threw no_device w

unfoldable pub raw_send : List ℕ → Call Bool
raw_send send = do
  found ← check_device
  announced ←
      if length send % 0x40 == 0
      then bulk_write (u16_bytes (length send) ++ (0 ∷ []))
      else pure true
  bulk_write send

unfoldable pub raw_receive : Call (List ℕ)
raw_receive = do
  z ← get
  elim z.pushback_buffer [
    | some p ↦ do done ← set (record z { pushback_buffer = none }); pure p
    | none ↦ read_device
  ]

unfoldable pub pushback : List ℕ → Call Bool
pushback p = do
  z ← get
  elim z.pushback_buffer [
    | some q ↦ throw multiple_pushbacks
    | none ↦ set (record z { pushback_buffer = some p })
  ]

-- `m_sequenceId` before the `advance!`. `none`: it throws.
unfoldable pub expected_sequence : ℕ → ℕ → ℕ → Option ℕ
expected_sequence socket expected received =
    if received == 0
    then some 0
    else if received == expected
    then some expected
    else if socket == 0
    then some expected
    else none

unfoldable pub check_sequence : ℕ → List ℕ → Call Bool
check_sequence socket seq =
    if ltb (length seq) sequence_packet_size then throw invalid_sequence_packet else do
      z ← get
      elim (expected_sequence socket z.sequence (sequence_id seq)) [
        | none ↦ throw out_of_sequence
        | some n ↦ set (record z { sequence = (n + 1) % 2 ^ 32 })
      ]
