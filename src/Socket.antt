-- ===== src/Socket.antt =====
-- The socket layer of src/socket.h and src/socket.cc. A Data object is its contents here: what
-- assignment, `GetBuffer` with `ReleaseBuffer`, and reads through `GetData` do to those is proved
-- in `Data`.
pub mod Fragment
pub mod Transfer
pub mod Pieces
pub mod Defragment
