-- ===== src/Protocol/Command.antt =====
-- The SB_COMMAND_ codes of src/protocol.h that the models use.
use barry.Prelude.{ℕ}

abbrev pub reset : ℕ
reset = 0x03

abbrev pub reset_reply : ℕ
reset_reply = 0x04

abbrev pub open_socket : ℕ
open_socket = 0x0a

abbrev pub close_socket : ℕ
close_socket = 0x0b

abbrev pub closed_socket : ℕ
closed_socket = 0x0c

abbrev pub remote_close_socket : ℕ
remote_close_socket = 0x0d

abbrev pub password_challenge : ℕ
password_challenge = 0x0e

abbrev pub password : ℕ
password = 0x0f

abbrev pub opened_socket : ℕ
opened_socket = 0x10

abbrev pub password_failed : ℕ
password_failed = 0x11

abbrev pub sequence_handshake : ℕ
sequence_handshake = 0x13

abbrev pub db_data : ℕ
db_data = 0x40

abbrev pub db_fragmented : ℕ
db_fragmented = 0x60

abbrev pub db_done : ℕ
db_done = 0x41
