-- ===== src/Agenticd/Limits/Caps.antt =====
-- The caps hold in every state that the gate can reach.
use git_agentic.Common.{ℕ, ◌≤◌, ◌<◌, ◌≡◌, ap, ◌∙◌, List, ok, err, length, nat_eq, arith}
use git_agentic.Common.Dict.{get}
use git_agentic.Agenticd.Limits.{
  LimitsConfig, global_cap, per_uid_cap, ConnGate, unwrap_or, try_admit,
}
use git_agentic.Agenticd.Limits.Gate.{count, Reach, Reach-IsExact, unwrap_or-entry}

module _ (c : LimitsConfig) where
  -- However connections were admitted, refused and closed: the gate's counters are the numbers of
  -- open connections, no more are open than the global cap, and of no user more than the user cap.
  pub gate_counts :
      (g : ConnGate) (live : List ℕ)
      → Reach c g live
      → (g.counts.global ≡ length live)
        × (length live ≤ c.max_connections)
        × ((u : ℕ)
            → (unwrap_or 0 (get g.counts.per_uid u) ≡ count u live)
              × (count u live ≤ c.max_connections_per_uid))
  gate_counts g live run =
      let v = Reach-IsExact c run in
      (
        v.global,
        v.within_global,
        λ u. (ap (unwrap_or 0) (v.per_uid u) ∙ unwrap_or-entry (count u live), v.within_per_uid u),
      )

  -- In every reachable state a connection is admitted exactly if fewer than the global cap are open
  -- and fewer of its user than the user cap; the refusal names the cap that was met, the global one
  -- first, with the number of connections that are open.
  try_admit_cases :
      (g : ConnGate) (live : List ℕ) (uid : ℕ)
      → Reach c g live
      → (length live < c.max_connections
          → count uid live < c.max_connections_per_uid
          → (try_admit uid g).0 ≡ ok (record { uid = uid }))
        × (c.max_connections ≤ length live
            → (try_admit uid g).0 ≡ err (global_cap (length live) c.max_connections))
        × (length live < c.max_connections
            → c.max_connections_per_uid ≤ count uid live
            → (try_admit uid g).0
              ≡ err (per_uid_cap uid (count uid live) c.max_connections_per_uid))
  unfolding try_admit
  try_admit_cases g live uid run =
      let v = Reach-IsExact c run in
      let own : unwrap_or 0 (get g.counts.per_uid uid) ≡ count uid live =
        ap (unwrap_or 0) (v.per_uid uid) ∙ unwrap_or-entry (count uid live) in
      rw (own, v.global, v.same_global, v.same_per_uid)
        (
          λ some_left some_own. ground arith,
          λ full. ground arith,
          λ some_left own_full. ground arith,
        )
