-- ===== src/Proto/Framing/BigEndian.antt =====
-- The four bytes of a length.
use git_agentic.Common.{ℕ, ◌<◌, ◌≡◌, length, arith}
use git_agentic.Proto.Framing.{to_be_bytes, from_be_bytes}

pub from_be_bytes-to_be_bytes : (n : ℕ) → n < 0x100000000 → from_be_bytes (to_be_bytes n) ≡ n
unfolding from_be_bytes to_be_bytes
from_be_bytes-to_be_bytes n h = omega arith

pub length-to_be_bytes : (n : ℕ) → length (to_be_bytes n) ≡ 4
unfolding to_be_bytes
length-to_be_bytes n = omega arith
