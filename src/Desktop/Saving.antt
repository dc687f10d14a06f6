-- ===== src/Desktop/Saving.antt =====
-- `ClearDatabase` and `SaveDatabase` of src/m_desktop.cc.
pub mod Packets
pub mod Saved
use barry.Prelude.{
  ℕ, ◌≡◌, ◌≢◌, refl, sym, ap, ◌∙◌, subst, suc, Bool, true, not, Option, some, List, [], ◌∷◌, ◌++◌,
  ◌==◌, if◌then◌else◌, arith, All, length,
}
use mathlib.Core.List.{append_assoc, append-nil}
use barry.Protocol.{check_size}
use barry.Protocol.Command
use barry.DbPacket
use barry.DbPacket.{DbPacket, Outcome, returned, raised, return_code_error, unexpected_command}
use barry.Desktop.{
  World, Result, Call, Built, ok, threw, ◌>>=◌, pure, throw, lift, command, return_code,
}
use barry.Desktop.Exchange.{
  IsDone, command_code, exchanged, bind-ok, bind-returned, request-answered, request-returned,
  check_size_mono, check_answer-IsDone, check_answer-returned, pure-ok,
}
use barry.Desktop.Records.{request, add_built}

-- `ClearDatabase`: the checks of the answer, and the whole call.
unfoldable pub clear_checks : Call Bool
clear_checks = do
  code ← return_code
  if not (code == 0) then (command >>= λ c. throw (return_code_error c code)) else do
    c ← command
    if not (c == Command.db_done) then throw unexpected_command else pure true

unfoldable pub clear_database : ℕ → Call Bool
clear_database db_id = do p ← request (λ s c. DbPacket.clear_database s c db_id); clear_checks

-- The loop of `SaveDatabase`. The list is what the calls of `BuildRecord` end with, up to the first
-- that returns false.
unfoldable pub save_loop : ℕ → List (Outcome Built) → Call Bool
save_loop db_id [] w = ok true w
save_loop db_id (built ∷ builder) w = elim (lift built w) as (λ r. Result Bool) [
  | threw e w' ↦ threw e w'
  | ok b w' ↦ elim (add_built db_id b w') as (λ r. Result Bool) [
    | threw e v ↦ threw e v
    | ok u v ↦ save_loop db_id builder v
  ]
]

unfoldable pub save_database : ℕ → List (Outcome Built) → Call Bool
save_database db_id builder = do cleared ← clear_database db_id; save_loop db_id builder
