-- ===== src/Protocol/Numbers.antt =====
-- The little-endian numbers of a packet, src/protostructs.h: their bytes hold them.
use barry.Prelude.{ℕ, ◌+◌, ◌*◌, ◌/◌, ◌%◌, ◌^◌, ◌<◌, ◌≡◌, arith}

pub u16_read : (n : ℕ) → n < 2 ^ 16 → n % 256 + 256 * (n / 256 % 256) ≡ n
u16_read n h = omega arith

pub u32_read :
    (n : ℕ)
    → n < 2 ^ 32
    → n % 256 + 256 * (n / 256 % 256) + 65536 * (n / 65536 % 256 + 256 * (n / 16777216 % 256)) ≡ n
u32_read n h = omega arith
