-- ===== src/Proto/Framing.antt =====
-- crates/agentic-proto/src/framing.rs: length-prefixed frames over a byte stream. A stream that
-- is read holds the bytes to come and says how it ends; one that is written has room for so
-- many bytes before the peer is gone. `read_exact` and `write_all` hide how the bytes are split.
pub mod BigEndian
pub mod Streams
use git_agentic.Common.{
  ℕ, ◌+◌, ◌-◌, ◌*◌, ◌/◌, ◌%◌, ◌≡◌, Bool, true, false, Option, none, some, List, [], ◌∷◌, ◌++◌,
  Result, ok, err, Action, pure, raise, lift, ◌>>=◌, ◌>>◌, length, take, drop, ltb, leb,
  if◌then◌else◌, ok_or,
}
use git_agentic.Common.Text.{Bytes}
use git_agentic.External.{Serde}

abbrev pub max_frame_bytes : ℕ
max_frame_bytes = 16 * 1024 * 1024

abbrev pub u32_max : ℕ
u32_max = 0xffffffff

pub data IoError : Type 0 where
  unexpected_eof broken_pipe : IoError

pub data FrameError : Type 0 where
  io : IoError → FrameError
  json : FrameError
  too_large : ℕ → FrameError

pub record Source : Type 0 where
  pub coming : Bytes
  pub ending : IoError

pub record Sink : Type 0 where
  pub written : Bytes
  pub room : ℕ

-- `u32::to_be_bytes` and `u32::from_be_bytes`
unfoldable pub to_be_bytes : ℕ → Bytes
to_be_bytes n = (n / 0x1000000) % 256 ∷ (n / 0x10000) % 256 ∷ (n / 0x100) % 256 ∷ n % 256 ∷ []

unfoldable pub from_be_bytes : Bytes → ℕ
from_be_bytes (a ∷ b ∷ c ∷ d ∷ []) = a * 0x1000000 + (b * 0x10000 + (c * 0x100 + d))
from_be_bytes _ = 0

-- `AsyncReadExt::read_exact`: what came before the end is gone.
unfoldable pub read_exact : ℕ → Action Source IoError Bytes
read_exact n r =
    if leb n (length r.coming)
    then (ok (take n r.coming), record r { coming = drop n r.coming })
    else (err r.ending, record r { coming = [] })

-- `AsyncWriteExt::write_all`
unfoldable pub write_all : Bytes → Action Sink IoError (Unit {0})
write_all b w =
    if leb (length b) w.room
    then (ok tt, record { written = w.written ++ b; room = w.room - length b })
    else (err broken_pipe, record { written = w.written ++ take w.room b; room = 0 })

-- `?` on an I/O result
abbrev pub with_io : {S A : Type 0} → Action S IoError A → Action S FrameError A
with_io m s = (elim (m s).0 [ ok a ↦ ok a | err e ↦ err (io e) ], (m s).1)

-- `usize` to `u32`, and the cap
unfoldable pub frame_length : Bytes → Result FrameError ℕ
frame_length bytes =
    if ltb u32_max (length bytes)
    then err (too_large u32_max)
    else if ltb max_frame_bytes (length bytes)
    then err (too_large (length bytes))
    else ok (length bytes)

unfoldable pub write_frame : {T : Type 0} → Serde T → T → Action Sink FrameError (Unit {0})
unfolding frame_length
write_frame serde value = do
  len ← lift (frame_length (serde.to_vec value))
  with_io (write_all (to_be_bytes len))
  with_io (write_all (serde.to_vec value))

abbrev pub read_payload : ℕ → Action Source FrameError (Option Bytes)
read_payload len =
    if ltb max_frame_bytes len
    then raise (too_large len)
    else (with_io (read_exact len) >>= λ buf. pure (some buf))

-- The match on the read of the length
abbrev pub after_length : Result IoError Bytes → Action Source FrameError (Option Bytes)
after_length (ok len_buf) = read_payload (from_be_bytes len_buf)
after_length (err unexpected_eof) = pure none
after_length (err e) = raise (io e)

unfoldable pub read_frame_bytes : Action Source FrameError (Option Bytes)
read_frame_bytes r = after_length (read_exact 4 r).0 (read_exact 4 r).1

abbrev pub decode : {T : Type 0} → Serde T → Option Bytes → Result FrameError (Option T)
decode serde none = ok none
decode serde (some bytes) = elim (serde.from_slice bytes) [ some v ↦ ok (some v) | none ↦ err json ]

unfoldable pub read_frame : {T : Type 0} → Serde T → Action Source FrameError (Option T)
read_frame serde = do bytes ← read_frame_bytes; lift (decode serde bytes)
