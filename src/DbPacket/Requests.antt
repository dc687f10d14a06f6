-- ===== src/DbPacket/Requests.antt =====
-- What the device reads in the requests.
use barry.Protocol.Numbers.{u16_read, u32_read}
use barry.Prelude.{
  ℕ, ◌+◌, ◌*◌, ◌/◌, ◌%◌, ◌^◌, ◌≤◌, ◌<◌, ◌≡◌, ap, ◌∙◌, true, ◌&&◌, Option, none, some, List, [], ◌∷◌,
  ◌++◌, ◌==◌, if◌then◌else◌, length, arith, drop, replicate,
}
use barry.Protocol.{u16_bytes, u32_bytes, get_u8, get_u16, get_u32, check_size, command_field}
use barry.Protocol.Command
use barry.Protocol.Operation
use barry.DbPacket
use barry.DbPacket.{DbPacket, request}

pub data Request : Type 0 where
  clear_database get_record_state_table get_records : ℕ → Request
  get_dbdb : Request
  -- The database, the index, and the flag.
  set_record_flags : ℕ → ℕ → ℕ → Request
  delete_record_by_index get_record_by_index : ℕ → ℕ → Request
  -- The database, the index, and the data.
  set_record_by_index : ℕ → ℕ → List ℕ → Request
  -- The database, the type, the id, and the data.
  add_record : ℕ → ℕ → ℕ → List ℕ → Request

-- The packet of a request.
abbrev pub build : ℕ → ℕ → Request → DbPacket
build socket cmd (clear_database db) = DbPacket.clear_database socket cmd db
build socket cmd (get_record_state_table db) = DbPacket.get_record_state_table socket cmd db
build socket cmd (get_records db) = DbPacket.get_records socket cmd db
build socket cmd get_dbdb = DbPacket.get_dbdb socket cmd
build socket cmd (set_record_flags db i f) = DbPacket.set_record_flags socket cmd db i f
build socket cmd (delete_record_by_index db i) = DbPacket.delete_record_by_index socket cmd db i
build socket cmd (get_record_by_index db i) = DbPacket.get_record_by_index socket cmd db i
build socket cmd (set_record_by_index db i bytes) =
    DbPacket.set_record_by_index socket cmd db i bytes
build socket cmd (add_record db t u bytes) = DbPacket.add_record socket cmd db t u bytes

-- The request in the bytes from the operation on, by the structures of src/protostructs.h.
abbrev read_operation : List ℕ → Option Request
read_operation p =
    let op = get_u8 p 6 in
    let db = get_u16 p 7 in
    if op == Operation.clear_database
    then some (clear_database db)
    else if op == Operation.get_record_state_table
    then some (get_record_state_table db)
    else if op == Operation.old_get_records
    then some (get_records db)
    else if op == Operation.old_get_dbdb
    then some get_dbdb
    else if op == Operation.set_record_flags
    then some (set_record_flags db (get_u16 p 10) (get_u8 p 9))
    else if op == Operation.delete_record_by_index
    then some (delete_record_by_index db (get_u16 p 9))
    else if op == Operation.get_record_by_index
    then some (get_record_by_index db (get_u16 p 9))
    else if op == Operation.set_record_by_index
    then some (set_record_by_index db (get_u16 p 10) (drop 12 p))
    else if op == Operation.add_record
    then some (add_record db (get_u8 p 9) (get_u32 p 10) (drop 15 p))
    else none

-- A packet that says its size, is for this socket, and names the command.
abbrev pub read : ℕ → ℕ → List ℕ → Option Request
read socket cmd p =
    if check_size p 7
      && (get_u16 p 0 == socket && (command_field p == Command.db_data && get_u8 p 5 == cmd))
    then read_operation p
    else none

-- The numbers fit their fields.
abbrev pub Fits : Request → Type 0
Fits (clear_database db) = db < 2 ^ 16
Fits (get_record_state_table db) = db < 2 ^ 16
Fits (get_records db) = db < 2 ^ 16
Fits get_dbdb = Unit {0}
Fits (set_record_flags db i f) = (db < 2 ^ 16) × (i < 2 ^ 16) × (f < 256)
Fits (delete_record_by_index db i) = (db < 2 ^ 16) × (i < 2 ^ 16)
Fits (get_record_by_index db i) = (db < 2 ^ 16) × (i < 2 ^ 16)
Fits (set_record_by_index db i bytes) = (db < 2 ^ 16) × (i < 2 ^ 16) × (length bytes + 12 < 2 ^ 16)
Fits (add_record db t u bytes) =
    (db < 2 ^ 16) × (t < 256) × (u < 2 ^ 32) × (length bytes + 15 < 2 ^ 16)

check_size-request :
    (socket cmd op n : ℕ) (rest : List ℕ)
    → 7 + length rest < 2 ^ 16
    → n ≤ 7 + length rest
    → check_size (request socket cmd op rest).send n ≡ true
unfolding check_size
check_size-request socket cmd op n rest h m =
    let size : get_u16 (request socket cmd op rest).send 2 ≡ 7 + length rest =
      u16_read (7 + length rest) h in
    ground arith

read-request :
    (socket cmd op : ℕ) (rest : List ℕ)
    → socket < 2 ^ 16
    → cmd < 256
    → 7 + length rest < 2 ^ 16
    → read socket cmd (request socket cmd op rest).send
      ≡ read_operation (request socket cmd op rest).send
unfolding command_field
read-request socket cmd op rest s c h =
    let fits = check_size-request socket cmd op 7 rest h (omega arith) in
    let same : (socket % 256 + 256 * (socket / 256 % 256) == socket) ≡ true = ground arith in
    let named : (cmd % 256 == cmd) ≡ true = ground arith in rw (fits, same, named)

flags_read :
    (a db b i c f : ℕ)
    → a ≡ db
    → b ≡ i
    → c ≡ f
    → Path (Option Request) (some (set_record_flags a b c)) (some (set_record_flags db i f))
flags_read a db b i c f p q r = λ j. some (set_record_flags (p j) (q j) (r j))

added_read :
    (a db b t c u : ℕ) (bytes : List ℕ)
    → a ≡ db
    → b ≡ t
    → c ≡ u
    → Path (Option Request) (some (add_record a b c bytes)) (some (add_record db t u bytes))
added_read a db b t c u bytes p q r = λ j. some (add_record (p j) (q j) (r j) bytes)

-- What `build` makes is read back by the device: the packet says its own size, is for the socket,
-- and holds the numbers and the data of the request, where these fit their fields.
pub read-build :
    (socket cmd : ℕ) (r : Request)
    → socket < 2 ^ 16
    → cmd < 256
    → Fits r
    → read socket cmd (build socket cmd r).send ≡ some r
unfolding DbPacket.clear_database DbPacket.get_record_state_table DbPacket.get_records
    DbPacket.get_dbdb DbPacket.set_record_flags DbPacket.delete_record_by_index
    DbPacket.get_record_by_index DbPacket.set_record_by_index DbPacket.add_record
read-build socket cmd (clear_database db) s c v =
    read-request socket cmd Operation.clear_database (u16_bytes db) s c (omega arith)
    ∙ ap (λ d. some (clear_database d)) (u16_read db v)
read-build socket cmd (get_record_state_table db) s c v =
    read-request socket cmd Operation.get_record_state_table (u16_bytes db) s c (omega arith)
    ∙ ap (λ d. some (get_record_state_table d)) (u16_read db v)
read-build socket cmd (get_records db) s c v =
    read-request socket cmd Operation.old_get_records (u16_bytes db) s c (omega arith)
    ∙ ap (λ d. some (get_records d)) (u16_read db v)
read-build socket cmd get_dbdb s c v =
    read-request socket cmd Operation.old_get_dbdb [] s c (omega arith)
read-build socket cmd (set_record_flags db i f) s c (v, w, x) =
    read-request socket cmd Operation.set_record_flags
      (u16_bytes db ++ (f % 256 ∷ (u16_bytes i ++ replicate 5 0))) s c (omega arith)
    ∙ flags_read _ db _ i _ f (u16_read db v) (u16_read i w) (omega arith)
read-build socket cmd (delete_record_by_index db i) s c (v, w) =
    read-request socket cmd Operation.delete_record_by_index (u16_bytes db ++ u16_bytes i) s c
      (omega arith)
    ∙ (λ j. some (delete_record_by_index (u16_read db v j) (u16_read i w j)))
read-build socket cmd (get_record_by_index db i) s c (v, w) =
    read-request socket cmd Operation.get_record_by_index (u16_bytes db ++ u16_bytes i) s c
      (omega arith)
    ∙ (λ j. some (get_record_by_index (u16_read db v j) (u16_read i w j)))
read-build socket cmd (set_record_by_index db i bytes) s c (v, w, x) =
    read-request socket cmd Operation.set_record_by_index
      (u16_bytes db ++ (0 ∷ (u16_bytes i ++ bytes))) s c (omega arith)
    ∙ (λ j. some (set_record_by_index (u16_read db v j) (u16_read i w j) bytes))
read-build socket cmd (add_record db t u bytes) s c (v, w, x, y) =
    read-request socket cmd Operation.add_record
      (u16_bytes db ++ (t % 256 ∷ (u32_bytes u ++ (1 ∷ bytes)))) s c (omega arith)
    ∙ added_read _ db _ t _ u bytes (u16_read db v) (omega arith) (u32_read u x)
