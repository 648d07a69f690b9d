-- ===== src/Samples/OtherRuns.antt =====
-- Runs of the approval tokens, the frames, the gate and the migrations at concrete inputs.
use git_agentic.Common.{
  ℕ, suc, ◌+◌, ◌≡◌, ◌↔◌, ◌≤◌, ◌<◌, refl, none, some, List, [], ◌∷◌, ◌++◌, ok, err, ap, arith,
  list_beq, nat_eq, list_eq, length, replicate,
}
use git_agentic.Common.Dict.{get}
use git_agentic.Common.Text.{Text, Bytes, codes, to_ascii_lowercase}
use git_agentic.External.{Serde, SerdeLaws}
use git_agentic.Core.Approval.{ApprovalKey, expired, generate_token, parse_token, tag, verify_token}
use git_agentic.Core.Approval.Tokens.{
  verify_token-generate_token, verify_token_iff, signing_input-injective,
}
use git_agentic.Proto.Framing.{
  Source, Sink, unexpected_eof, broken_pipe, write_frame, read_frame, read_frame_bytes,
  frame_length, read_exact, write_all, to_be_bytes,
}
use git_agentic.Proto.Framing.Streams.{read_frame-write_frame}
use git_agentic.Agenticd.Limits.{
  LimitsConfig, default_config, ConnGate, new_gate, try_admit, unwrap_or,
}
use git_agentic.Agenticd.Limits.Gate.{count, Reach, start, admitted}
use git_agentic.Agenticd.Limits.Caps.{gate_counts}
use git_agentic.Memory.InMemory.{MigrationStep, InMemoryState, migrations_after, position}
use git_agentic.Samples.HexDigits.{hex, hex_laws}
use git_agentic.Samples.Crates.{hmac, hmac_laws}

abbrev key : ApprovalKey
key = record { key = replicate 32 7 }

verify_token-generate_token_example :
    let token = generate_token hex hmac key (codes "AB") 1000 1700000000 in
    ((1700000300 ≤ 1700000000 + 300)
      → (1700000000 ≤ 1700000300 + 300)
      → verify_token hex hmac key (codes "ab") 1000 token 1700000300 ≡ ok tt)
    × (1700000000 + 300 < 1700000300
        → verify_token hex hmac key (codes "ab") 1000 token 1700000300 ≡ err (expired 300))
    × (1700000300 + 300 < 1700000000
        → verify_token hex hmac key (codes "ab") 1000 token 1700000300 ≡ err (expired 300))
verify_token-generate_token_example =
    verify_token-generate_token hex hmac hex_laws hmac_laws key (codes "AB") (codes "ab") 1000
      1700000000 1700000300 (omega arith) refl

verify_token_iff_example : (verify_token hex hmac key (codes "ab") 1000 (codes "17") 20 ≡ ok tt) ↔ (
    (t : ℕ) × (parse_token hex hmac (codes "17")
      ≡ ok (t, tag hex hmac key (to_ascii_lowercase (codes "ab")) 1000 t))
    × (20 ≤ t + 300)
    × (t ≤ 20 + 300))
verify_token_iff_example = verify_token_iff hex hmac key (codes "ab") 1000 (codes "17") 20

signing_input-injective_example :
    ◌≡◌ {A = Text} (codes "ab") (codes "ab") × ◌≡◌ {A = ℕ} 1000 1000 × ◌≡◌ {A = ℕ} 17 17
signing_input-injective_example =
    signing_input-injective (codes "ab") (codes "ab") 1000 1000 17 17 (refl, (refl, tt))
      (refl, (refl, tt)) (omega arith) (omega arith) (omega arith) (omega arith) refl

abbrev plain : Serde Bytes
plain = record { to_vec = λ b. b; from_slice = λ b. some b }

plain_laws : SerdeLaws plain
plain_laws = record { from_slice-to_vec = λ b. refl }

abbrev sink : Sink
sink = record { written = []; room = 1000 }

write_hello : (write_frame plain (codes "hello") sink).0 ≡ ok tt
unfolding write_frame frame_length write_all to_be_bytes
write_hello = refl

read_frame-write_frame_example :
    (bytes : Bytes) × ((write_frame plain (codes "hello") sink).1.written ≡ sink.written ++ bytes)
    × (read_frame plain (record { coming = bytes ++ codes "more"; ending = broken_pipe })
        ≡ (ok (some (codes "hello")), record { coming = codes "more"; ending = broken_pipe }))
read_frame-write_frame_example =
    read_frame-write_frame plain plain_laws (codes "hello") sink (codes "more") broken_pipe
      write_hello

-- Values with a JSON form as long as they say
many_zeros : ℕ → Bytes
many_zeros ℕ.zero = []
many_zeros (ℕ.suc n) = 0 ∷ many_zeros n

length-many_zeros : (n : ℕ) → length (many_zeros n) ≡ n
unfolding many_zeros
length-many_zeros ℕ.zero = refl
length-many_zeros (ℕ.suc n) = ap suc (length-many_zeros n)

abbrev huge : Serde ℕ
huge = record { to_vec = many_zeros; from_slice = λ b. some (length b) }

-- Tests: a stream that ends within the length reads as no frame.
cut_header :
    (read_frame_bytes (record { coming = 0 ∷ 0 ∷ []; ending = unexpected_eof })).0 ≡ ok none
unfolding read_frame_bytes read_exact
cut_header = refl

abbrev cut : Source
cut = record { coming = 0 ∷ 0 ∷ []; ending = unexpected_eof }

abbrev small_config : LimitsConfig
small_config = record default_config { max_connections = 2; max_connections_per_uid = 1 }

abbrev one_open : ConnGate
one_open = (try_admit 1000 (new_gate small_config)).1

one_run : Reach small_config one_open (1000 ∷ [])
unfolding try_admit get
one_run = admitted 1000 (record { uid = 1000 }) start refl

gate_counts_example :
    (one_open.counts.global ≡ 1)
    × (1 ≤ 2)
    × ((u : ℕ)
        → (unwrap_or 0 (get one_open.counts.per_uid u) ≡ count u (1000 ∷ []))
          × (count u (1000 ∷ []) ≤ 1))
gate_counts_example = gate_counts small_config one_open (1000 ∷ []) one_run

abbrev pub migrated : InMemoryState ℕ
migrated = record {
  schema_version = codes "003";
  tables = [];
  applied_migrations = codes "001" ∷ codes "002" ∷ codes "003" ∷ [];
}

abbrev steps : List MigrationStep
steps = record { name = codes "003"; sql = [] } ∷ record { name = codes "002"; sql = [] } ∷ []

listed : migrations_after (codes "001") migrated ≡ ok (codes "003" ∷ codes "002" ∷ [])
unfolding migrations_after position list_beq
listed = refl
