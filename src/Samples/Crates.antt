-- ===== src/Samples/Crates.antt =====
-- Small functions in place of the crates blake3, serde_json, zstd, hmac, regex, toml and of `f64`.
use git_agentic.Common.{
  take, ℕ, zero, suc, ◌-◌, ◌*◌, ◌/◌, ◌%◌, ◌≡◌, refl, some, [], ◌∷◌, length, ap, arith, ltb,
}
use git_agentic.Common.Text.{starts_with, Bytes}
use git_agentic.External.{
  Blake3, Blake3Laws, Serde, SerdeLaws, Zstd, ZstdLaws, Hmac, HmacLaws, IsBytes,
}
use git_agentic.Core.Object.{Object, Codec}
use git_agentic.Core.Scanner.{Engine}
use git_agentic.Core.Store
use git_agentic.Samples.HexDigits.{hex}
use git_agentic.Samples.Coders.{tree_coder, commit_coder, object_enc, object_dec, object_law, alone}

-- The first 32 bytes, filled up with zeros
abbrev pub fit : ℕ → Bytes → Bytes
fit zero b = []
fit (suc n) [] = 0 ∷ fit n []
fit (suc n) (c ∷ b) = c % 256 ∷ fit n b

pub length-fit : (n : ℕ) (b : Bytes) → length (fit n b) ≡ n
length-fit zero b = refl
length-fit (suc n) [] = ap suc (length-fit n [])
length-fit (suc n) (c ∷ b) = ap suc (length-fit n b)

pub fit-IsBytes : (n : ℕ) (b : Bytes) → IsBytes (fit n b)
fit-IsBytes zero b = tt
fit-IsBytes (suc n) [] = (omega arith, fit-IsBytes n [])
fit-IsBytes (suc n) (c ∷ b) = (omega arith, fit-IsBytes n b)

abbrev pub blake3 : Blake3
blake3 = record { digest = fit 32 }

pub blake3_laws : Blake3Laws blake3
blake3_laws = record { length-digest = length-fit 32; digest-IsBytes = fit-IsBytes 32 }

abbrev pub object_json : Serde Object
object_json = record { to_vec = object_enc; from_slice = object_dec }

pub object_json_laws : SerdeLaws object_json
object_json_laws = record { from_slice-to_vec = object_law }

abbrev pub codec : Codec
codec = record {
  blake3 = blake3;
  tree_json = record {
    to_vec = tree_coder.enc;
    from_slice = λ s. alone (λ t. t) (tree_coder.dec s);
  };
  commit_json = record {
    to_vec = commit_coder.enc;
    from_slice = λ s. alone (λ c. c) (commit_coder.dec s);
  };
  object_json = object_json;
}

abbrev pub zstd : Zstd
zstd = record { encode_all = λ b. b; decode_all = λ b. some b }

pub zstd_laws : ZstdLaws zstd
zstd_laws = record { decode_all-encode_all = λ b. refl }

abbrev pub hmac : Hmac
hmac = record { finalize = λ key message. fit 32 message }

pub hmac_laws : HmacLaws hmac
hmac_laws = record {
  length-finalize = λ key m. length-fit 32 m;
  finalize-IsBytes = λ key m. fit-IsBytes 32 m;
}

-- A pattern is found where its first four letters begin the bytes.
abbrev pub engine : Engine
engine = record {
  regex = record {
    is_match = λ p b. starts_with (take 4 p) b;
    find_iter = λ p b. (0, length b) ∷ [];
  };
  float = record {
    F64 = ℕ;
    of_ℕ = λ n. n;
    sub = λ a b. a - b;
    mul = λ a b. a * b;
    div = λ a b. a / b;
    log2 = λ a. a;
    lt = λ a b. ltb a b;
  };
}

abbrev pub crates : Store.Crates
crates = record { hex = hex; zstd = zstd; codec = codec; engine = engine }
