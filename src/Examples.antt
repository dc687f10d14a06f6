-- ===== src/Examples.antt =====
-- Concrete runs of the modelled code: where the hypotheses of the theorems hold.
pub mod Routing
pub mod Buffers
pub mod Sockets
pub mod Records
pub mod Databases
pub mod Channels
pub mod Desktops
pub mod Streams
pub mod Entries
