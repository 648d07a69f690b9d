-- ===== src/Proto/Framing/Streams.antt =====
-- A frame that was written is read whole, and no frame beyond the cap is read or written.
use git_agentic.Common.{
  ℕ, ◌≤◌, ◌<◌, ◌≡◌, ap, ◌∙◌, false, Option, none, some, [], ◌++◌, Result, ok, err, Action, pure,
  lift, ◌>>=◌, ◌>>◌, length, take, drop, ltb, if◌then◌else◌, bind-eq-ok, bind-ok, continue,
  take-append, drop-append, length-append, arith,
}
use mathlib.Core.List.{append_assoc}
use git_agentic.Common.Text.{Bytes}
use git_agentic.External.{Serde, SerdeLaws}
use git_agentic.Proto.Framing.BigEndian.{from_be_bytes-to_be_bytes, length-to_be_bytes}
use git_agentic.Proto.Framing.{
  Source, Sink, IoError, unexpected_eof, broken_pipe, FrameError, io, too_large, to_be_bytes,
  from_be_bytes, read_exact, write_all, with_io, frame_length, write_frame, read_payload,
  after_length, read_frame_bytes, decode, read_frame, max_frame_bytes, u32_max,
}

-- Bytes that come are read, and what follows them stays.
read_exact-append :
    (b rest : Bytes) (e : IoError)
    → read_exact (length b) (record { coming = b ++ rest; ending = e })
      ≡ (ok b, record { coming = rest; ending = e })
unfolding read_exact
read_exact-append b rest e =
    rw (take-append b rest, drop-append b rest) (ground (arith, length-append b rest))

frame_length_ok :
    (b : Bytes) (n : ℕ) → frame_length b ≡ ok n → (n ≡ length b) × (n ≤ max_frame_bytes)
unfolding frame_length
frame_length_ok b n h = ground arith

write_all_ok :
    (b : Bytes) (w : Sink)
    → (with_io (write_all b) w).0 ≡ ok tt
    → (with_io (write_all b) w).1.written ≡ w.written ++ b
unfolding write_all
write_all_ok b w h = ground arith

read_frame_bytes-append :
    (b rest : Bytes) (e : IoError)
    → length b ≤ max_frame_bytes
    → read_frame_bytes (record { coming = to_be_bytes (length b) ++ (b ++ rest); ending = e })
      ≡ (ok (some b), record { coming = rest; ending = e })
unfolding read_frame_bytes
read_frame_bytes-append b rest e h =
    let header : read_exact 4
          (record { coming = to_be_bytes (length b) ++ (b ++ rest); ending = e })
        ≡ (ok (to_be_bytes (length b)), record { coming = b ++ rest; ending = e }) =
      rw (← length-to_be_bytes (length b))
        (read_exact-append (to_be_bytes (length b)) (b ++ rest) e) in
    ap (λ (t : Result IoError Bytes × Source). after_length t.0 t.1) header
    ∙ payload (from_be_bytes-to_be_bytes (length b) (omega arith))
  where
    after_payload : Result IoError Bytes × Source → Result FrameError (Option Bytes) × Source
    after_payload t = (with_io (λ _. t) >>= λ buf. pure (some buf)) t.1

    small : ltb max_frame_bytes (length b) ≡ false
    small = ground arith

    payload :
        {n : ℕ}
        → n ≡ length b
        → read_payload n (record { coming = b ++ rest; ending = e })
          ≡ (ok (some b), record { coming = rest; ending = e })
    payload {n} eq =
        rw (eq, small)
          (ap (λ (t : Result IoError Bytes × Source). after_payload t) (read_exact-append b rest e))

write_twice :
    (h b : Bytes) (w : Sink)
    → ((with_io (write_all h) >> with_io (write_all b)) w).0 ≡ ok tt
    → ((with_io (write_all h) >> with_io (write_all b)) w).1.written ≡ w.written ++ (h ++ b)
write_twice h b w e =
    let (u, e3, e4) = bind-eq-ok (with_io (write_all h)) (λ _. with_io (write_all b)) w e in
    rw (bind-ok (with_io (write_all h)) (λ _. with_io (write_all b)) w e3) (
      write_all_ok b (with_io (write_all h) w).1 e4
      ∙ ap (λ (t : Bytes). t ++ b) (write_all_ok h w e3)
      ∙ append_assoc w.written h b)

module _ {T : Type 0} (serde : Serde T) where
  unfoldable frame : T → Bytes
  frame v = to_be_bytes (length (serde.to_vec v)) ++ serde.to_vec v

  -- A write that reports success wrote the frame of the value and nothing else.
  write_frame_ok :
      (v : T) (w : Sink)
      → (write_frame serde v w).0 ≡ ok tt
      → ((write_frame serde v w).1.written ≡ w.written ++ frame v)
        × (length (serde.to_vec v) ≤ max_frame_bytes)
  unfolding write_frame frame
  write_frame_ok v w e =
      let b = serde.to_vec v in
      let send : ℕ → Action Sink FrameError (Unit {0}) =
        λ n. with_io (write_all (to_be_bytes n)) >> with_io (write_all b) in
      let (n, en, e2) = bind-eq-ok (lift (frame_length b)) send w e in
      let (same, small) = frame_length_ok b n en in
      (
        ap (λ (t : Result FrameError (Unit {0}) × Sink). t.1.written)
              (bind-ok (lift (frame_length b)) send w en)
            ∙ write_twice (to_be_bytes n) b w e2
            ∙ ap (λ m. w.written ++ (to_be_bytes m ++ b)) same,
        rw (← same) small,
      )

  -- What a successful write of a value appended to the stream is read back by `read_frame` as that
  -- value, and what follows it on the stream stays there to be read.
  pub read_frame-write_frame :
      (laws : SerdeLaws serde) (v : T) (w : Sink) (rest : Bytes) (e : IoError)
      → (write_frame serde v w).0 ≡ ok tt
      → (bytes : Bytes) × ((write_frame serde v w).1.written ≡ w.written ++ bytes)
        × (read_frame serde (record { coming = bytes ++ rest; ending = e })
            ≡ (ok (some v), record { coming = rest; ending = e }))
  unfolding read_frame frame
  read_frame-write_frame laws v w rest e h =
      let (wrote, small) = write_frame_ok v w h in
      (
        frame v,
        wrote,
        ap
              (λ (t : Result FrameError (Option Bytes) × Source).
                continue t.0 (λ b s. (decode serde b, s)) t.1)
              (ap (λ (c : Bytes). read_frame_bytes (record { coming = c; ending = e }))
                  (append_assoc (to_be_bytes (length (serde.to_vec v))) (serde.to_vec v) rest)
                ∙ read_frame_bytes-append (serde.to_vec v) rest e small)
            ∙ rw (laws.from_slice-to_vec v, decode),
      )

  -- A value whose JSON is longer than the cap is refused with its length, or with the largest u32
  -- if that is less, and nothing is written.
  write_frame_too_large :
      (v : T) (w : Sink)
      → max_frame_bytes < length (serde.to_vec v)
      → write_frame serde v w ≡ (
        err (
            too_large
              (if ltb u32_max (length (serde.to_vec v)) then u32_max else length (serde.to_vec v))),
        w,
      )
  unfolding write_frame
  write_frame_too_large v w h = ground arith

-- What a read returns or refuses, on every branch: a stream that ends before four bytes reads as
-- no frame, even behind one to three bytes; a length beyond the cap is refused with the payload
-- unread; a payload cut short is an error; and a payload that is returned is within the cap.
read_frame_bytes_cases :
    (r : Source)
    → (length r.coming < 4
        → read_frame_bytes r ≡ (
          elim r.ending [ unexpected_eof ↦ ok none | broken_pipe ↦ err (io broken_pipe) ],
          record r { coming = [] },
        ))
      × (4 ≤ length r.coming
          → let n = from_be_bytes (take 4 r.coming) in
            let payload = drop 4 r.coming in
            (max_frame_bytes < n
              → read_frame_bytes r ≡ (err (too_large n), record r { coming = payload }))
            × (n ≤ max_frame_bytes
                → length payload < n
                → read_frame_bytes r ≡ (err (io r.ending), record r { coming = [] }))
            × (n ≤ max_frame_bytes
                → n ≤ length payload
                → read_frame_bytes r
                  ≡ (ok (some (take n payload)), record r { coming = drop n payload })))
unfolding read_frame_bytes read_exact
read_frame_bytes_cases r = (
  λ h. ground arith,
  λ h. (λ big. ground arith, λ fits short. ground arith, λ fits there. ground arith),
)
