-- ===== src/Desktop.antt =====
-- The desktop mode, src/m_desktop.cc: what it asks of the device's databases.
--
-- A call is a function of the world to a result: what it returns or throws, and the world after it.
-- The world is the state of the mode and the socket as it seems to it: what each later call of
-- `Packet` or `NextRecord` ends with, an answer or (`none`) an exception. The models of
-- src/socket.cc say which answers those are; one that is returned has five bytes at least. A call
-- that waits for more answers throws the socket's timeout.
pub mod Opening
pub mod Records
pub mod Loading
pub mod Exchange
pub mod Saving
use barry.Prelude.{
  ℕ, ◌+◌, ◌%◌, Bool, true, false, not, Option, none, some, List, [], ◌∷◌, ◌++◌, ltb, ◌==◌,
  if◌then◌else◌, length, drop,
}
use barry.Protocol.{u16_bytes, packet_header_size, check_size, command_field}
use barry.Protocol.Command
use barry.CommandTable
use barry.DatabaseDatabase.{Database}
use barry.DbPacket
use barry.DbPacket.{
  DbPacket, DbData, Error, Outcome, returned, raised, bad_size, no_command, bad_offset, overrun,
  unexpected_command, return_code_error, socket_error,
}

pub record World : Type 0 where
  -- The number of the mode's socket.
  pub socket : ℕ
  pub command_table : List CommandTable.Command
  pub dbdb : List Database
  -- The receive buffer of the packet in use.
  pub response : List ℕ
  pub answers : List (Option (List ℕ))
  -- The packets that the socket was given.
  pub sent : List (List ℕ)
  -- The records that the parser was given.
  pub parsed : List DbData

pub data Result {ℓ} (A : Type ℓ) : Type ℓ where
  ok : A → World → Result A
  threw : Error → World → Result A

abbrev pub Call {ℓ} : Type ℓ → Type ℓ
Call A = World → Result A

infixl 10 ◌>>=◌
abbrev pub ◌>>=◌ : {A B : Type 0} → Call A → (A → Call B) → Call B
m >>= f = λ w. elim (m w) [ ok a w' ↦ f a w' | threw e w' ↦ threw e w' ]

abbrev pub pure : {A : Type 0} → A → Call A
pure a w = ok a w

abbrev pub throw : {A : Type 0} → Error → Call A
throw e w = threw e w

abbrev pub lift : {A : Type 0} → Outcome A → Call A
lift (returned a) w = ok a w
lift (raised e) w = threw e w

abbrev pub get : Call World
get w = ok w w

-- `Packet` and `NextRecord` of the socket empty the receive buffer first.
unfoldable pub packet : List ℕ → Call Bool
packet p w = elim w.answers [
  | [] ↦ threw socket_error (record w { sent = w.sent ++ (p ∷ []); response = [] })
  | answer ∷ answers ↦ elim answer [
    | none ↦
        threw socket_error
          (record w { sent = w.sent ++ (p ∷ []); response = []; answers = answers })
    | some a ↦ ok true (record w { sent = w.sent ++ (p ∷ []); response = a; answers = answers })
  ]
]

-- The packet of `NextRecord`.
abbrev pub next_record_packet : ℕ → List ℕ
next_record_packet socket = u16_bytes socket ++ (u16_bytes 7 ++ (Command.db_done ∷ 0 ∷ 0 ∷ []))

-- "Database Access".
abbrev pub database_access : List ℕ
database_access =
    b'D' ∷ b'a' ∷ b't' ∷ b'a' ∷ b'b' ∷ b'a' ∷ b's' ∷ b'e' ∷ b' ' ∷ b'A' ∷ b'c' ∷ b'c' ∷ b'e' ∷ b's'
    ∷ b's' ∷ []

-- `GetDBCommand(DatabaseAccess)`.
unfoldable pub get_db_command : Call ℕ
get_db_command w =
    let cmd = CommandTable.get_command database_access w.command_table in
    if cmd == 0 then threw no_command w else ok cmd w

-- `Command` and `ReturnCode` of the packet in use.
unfoldable pub command : Call ℕ
command w = lift (DbPacket.packet_command w.response) w

unfoldable pub return_code : Call ℕ
return_code w = lift (DbPacket.return_code w.response) w

-- `while( packet.Command() != SB_COMMAND_DB_DONE )` with a call of `NextRecord` at the end of the
-- body: `visit` is what the rest of the body does. It goes over the answers.
unfoldable pub until_done : (World → World) → List (Option (List ℕ)) → Call Bool
until_done visit [] w =
    if not (check_size w.response packet_header_size)
    then threw bad_size w
    else if command_field w.response == Command.db_done
    then ok true w
    else packet (next_record_packet w.socket) (record (visit w) { answers = [] })
until_done visit (answer ∷ answers) w =
    let rest =
      elim (packet (next_record_packet w.socket) (record (visit w) { answers = answer ∷ answers }))
        as (λ r. Result Bool) [ ok u w' ↦ until_done visit answers w' | threw e w' ↦ threw e w' ] in
    if not (check_size w.response packet_header_size)
    then threw bad_size w
    else if command_field w.response == Command.db_done
    then ok true w
    else rest

-- `while( packet.Command() != SB_COMMAND_DB_DONE ) m_socket->NextRecord(m_response);`
unfoldable pub flush : Call Bool
flush w = until_done (λ v. v) w.answers w

-- The checks of an answer that `AddRecord`, `SetRecord` and `SaveDatabase` share.
unfoldable pub check_answer : Call Bool
check_answer = do
  c ← command
  if not (c == Command.db_done) then throw unexpected_command else do
    code ← return_code
    if not (code == 0) then throw (return_code_error c code) else pure true

-- What a call of `BuildRecord` leaves in the data: the ids, and the bytes behind the offset.
pub record Built : Type 0 where
  pub rec_type : ℕ
  pub unique_id : ℕ
  pub bytes : List ℕ

-- `DBDataBuilder::BuildRecord`. With the record's own offset it copies the whole block, and else
-- what lies behind the record's offset.
unfoldable pub build_record : DbData → ℕ → Outcome Built
build_record d offset =
    if ltb (length d.block) d.offset
    then raised (if offset == d.offset then overrun else bad_offset)
    else returned
        (record { rec_type = d.rec_type; unique_id = d.unique_id; bytes = drop d.offset d.block })
