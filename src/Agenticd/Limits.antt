-- ===== src/Agenticd/Limits.antt =====
-- crates/agenticd/src/limits.rs: the caps on connections and the rate of requests per user. Each
-- operation runs under its mutex, so a run is a sequence of whole operations.
pub mod Gate
pub mod Caps
use git_agentic.Common.{
  ℕ, suc, ◌+◌, ◌-◌, ◌*◌, ◌≡◌, Bool, true, false, Option, none, some, List, [], ◌∷◌, Result, ok, err,
  and_then, Action, String, ltb, leb, ◌==◌, nat_eq, if◌then◌else◌,
}
use git_agentic.Common.Dict.{Dict, get, insert, remove}
use git_agentic.Common.Text.{Text, codes}

-- A `Duration` is a number of nanoseconds.
pub record LimitsConfig : Type 0 where
  pub max_connections : ℕ
  pub max_connections_per_uid : ℕ
  pub rate_per_uid : ℕ
  pub commit_queue_depth : ℕ
  pub read_idle : ℕ
  pub write_idle : ℕ

abbrev pub seconds : ℕ → ℕ
seconds n = n * 1000000000

abbrev pub default_config : LimitsConfig
default_config = record {
  max_connections = 64;
  max_connections_per_uid = 16;
  rate_per_uid = 200;
  commit_queue_depth = 8;
  read_idle = seconds 30;
  write_idle = seconds 30;
}

-- `anyhow::ensure!`
abbrev pub ensure : Bool → String → Result Text (Unit {0})
ensure true message = ok tt
ensure false message = err (codes message)

-- `LimitsConfig::validate`
unfoldable pub validate : LimitsConfig → Result Text (Unit {0})
validate c = and_then (ensure (leb 1 c.max_connections) "--max-connections must be >= 1") λ _.
    and_then (ensure (leb 1 c.max_connections_per_uid) "--max-connections-per-uid must be >= 1")
      λ _. and_then (ensure (leb 1 c.rate_per_uid) "--rate-per-uid must be >= 1") λ _.
        and_then (ensure (leb 1 c.commit_queue_depth) "--commit-queue-depth must be >= 1") λ _.
          and_then (ensure (leb 1 c.read_idle) "--read-idle-secs must be >= 1")
            λ _. ensure (leb 1 c.write_idle) "--write-idle-secs must be >= 1"

pub data ConnRejection : Type 0 where
  global_cap : (current cap : ℕ) → ConnRejection
  per_uid_cap : (uid current cap : ℕ) → ConnRejection

pub record GateCounts : Type 0 where
  pub global : ℕ
  pub per_uid : Dict ℕ ℕ

pub record ConnGate : Type 0 where
  pub max_global : ℕ
  pub max_per_uid : ℕ
  pub counts : GateCounts

-- `ConnGate::new`
abbrev pub new_gate : LimitsConfig → ConnGate
new_gate c = record {
  max_global = c.max_connections;
  max_per_uid = c.max_connections_per_uid;
  counts = record { global = 0; per_uid = [] };
}

abbrev pub unwrap_or : ℕ → Option ℕ → ℕ
unwrap_or d none = d
unwrap_or d (some n) = n

-- A guard holds the user's id.
pub record ConnGuard : Type 0 where
  pub uid : ℕ

unfoldable pub try_admit : ℕ → Action ConnGate ConnRejection ConnGuard
try_admit uid g =
    if leb g.max_global g.counts.global
    then (err (global_cap g.counts.global g.max_global), g)
    else if leb g.max_per_uid (unwrap_or 0 (get g.counts.per_uid uid))
    then (err (per_uid_cap uid (unwrap_or 0 (get g.counts.per_uid uid)) g.max_per_uid), g)
    else (
      ok (record { uid = uid }),
      record g {
        counts = record {
          global = suc g.counts.global;
          per_uid = insert g.counts.per_uid uid (suc (unwrap_or 0 (get g.counts.per_uid uid)));
        };
      },
    )

abbrev pub release : Dict ℕ ℕ → ℕ → Option ℕ → Dict ℕ ℕ
release m uid none = m
release m uid (some n) = if (n - 1) == 0 then remove m uid else insert m uid (n - 1)

-- `ConnGuard::drop`
unfoldable pub drop_guard : ConnGuard → ConnGate → ConnGate
drop_guard guard g = record g {
  counts = record {
    global = g.counts.global - 1;
    per_uid = release g.counts.per_uid guard.uid (get g.counts.per_uid guard.uid);
  };
}

-- `f64`, and the time between two instants in seconds
pub record Clock : Type 1 where
  pub F64 : Type 0
  pub Instant : Type 0
  pub of_ℕ : ℕ → F64
  pub add : F64 → F64 → F64
  pub sub : F64 → F64 → F64
  pub mul : F64 → F64 → F64
  pub min : F64 → F64 → F64
  pub le : F64 → F64 → Bool
  pub saturating_seconds_since : Instant → Instant → F64

module _ (c : Clock) where
  pub record Bucket : Type 0 where
    pub tokens : c.F64
    pub last_refill : c.Instant

  pub record RateLimiter : Type 0 where
    pub rate_per_sec : c.F64
    pub burst : c.F64
    pub buckets : Dict ℕ Bucket

  -- `RateLimiter::new`
  abbrev pub new_limiter : ℕ → RateLimiter
  new_limiter rate = record {
    rate_per_sec = c.of_ℕ rate;
    burst = c.mul (c.of_ℕ rate) (c.of_ℕ 2);
    buckets = [];
  }

  abbrev pub bucket_or : Option Bucket → Bucket → Bucket
  bucket_or none b = b
  bucket_or (some b) d = b

  abbrev pub refill : RateLimiter → c.Instant → Bucket → Bucket
  refill r now b = record {
    tokens =
        c.min (c.add b.tokens (c.mul (c.saturating_seconds_since now b.last_refill) r.rate_per_sec))
          r.burst;
    last_refill = now;
  }

  abbrev pub take_token : Bucket → Bool × Bucket
  take_token b =
      if c.le (c.of_ℕ 1) b.tokens
      then (true, record b { tokens = c.sub b.tokens (c.of_ℕ 1) })
      else (false, b)

  unfoldable pub try_consume : ℕ → c.Instant → RateLimiter → Bool × RateLimiter
  try_consume uid now r =
      let full : Bucket = record { tokens = r.burst; last_refill = now } in
      let (granted, b) = take_token (refill r now (bucket_or (get r.buckets uid) full)) in
      (granted, record r { buckets = insert r.buckets uid b })
