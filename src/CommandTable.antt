-- ===== src/CommandTable.antt =====
-- The command table of src/r_command.cc: what `LoadCommandTable` learns of the device's commands.
--
-- A std::string is the list of its bytes. A pointer into the data is the list of the bytes from it
-- on; a pointer behind the end is the empty list, which ends the loop as well.
pub mod Parsing
use barry.Prelude.{
  ℕ, zero, suc, ◌+◌, ◌≡◌, Bool, true, false, ◌&&◌, Option, none, some, List, [], ◌∷◌, ◌++◌, ltb,
  leb, ◌==◌, if◌then◌else◌, length, take, drop,
}
use barry.FieldLoop.{field_loop}
use barry.Protocol.{get_u8}

-- `operator==` of std::string.
unfoldable pub same_name : List ℕ → List ℕ → Bool
same_name [] [] = true
same_name [] (y ∷ ys) = false
same_name (x ∷ xs) [] = false
same_name (x ∷ xs) (y ∷ ys) = x == y && same_name xs ys

pub record Command : Type 0 where
  pub code : ℕ
  pub name : List ℕ

-- `sizeof(CommandTableField)` and `COMMAND_FIELD_HEADER_SIZE`.
abbrev pub command_field_size : ℕ
command_field_size = 3

abbrev pub command_field_header_size : ℕ
command_field_header_size = 2

-- `ParseField`: the commands after it, and the bytes from the pointer that it returns.
unfoldable pub parse_field : List Command → List ℕ → List Command × List ℕ
parse_field commands begin =
    if ltb (length begin) command_field_size
    then (commands, [])
    else let size = get_u8 begin 0 in
      let next = drop size (drop command_field_header_size begin) in
      if ltb (length begin) (command_field_header_size + size)
      then (commands, [])
      else if size == 0
      then (commands, next)
      else (
        commands
            ++ (record {
              code = get_u8 begin 1;
              name = take size (drop command_field_header_size begin);
            }
                ∷ []),
        next,
      )

-- `Parse`. Each round ends the loop or takes two bytes at least, so the fuel is enough.
unfoldable pub parse : List Command → List ℕ → ℕ → Option (List Command)
parse commands bytes offset =
    if leb (length bytes) offset
    then some commands
    else field_loop parse_field (length bytes) commands (drop offset bytes)

-- `GetCommand`.
unfoldable pub get_command : List ℕ → List Command → ℕ
get_command name [] = 0
get_command name (c ∷ cs) = if same_name c.name name then c.code else get_command name cs
