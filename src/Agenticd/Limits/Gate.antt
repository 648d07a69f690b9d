-- ===== src/Agenticd/Limits/Gate.antt =====
-- The gate counts the connections that are open, and keeps them within the caps.
use git_agentic.Common.{
  ℕ, zero, suc, ◌+◌, ◌-◌, ◌≤◌, ◌<◌, ◌≡◌, refl, ap, ◌∙◌, false, Bool-cases, inl, inr, Option, none,
  some, List, [], ◌∷◌, ◌++◌, ok, err, length, length-append, ◌==◌, nat_eq, if◌then◌else◌, arith,
  ==_refl, eq_of_==,
}
use mathlib.Core.Path.{subst}
use git_agentic.Common.Dict.{Dict, get, insert, get-insert, get-remove}
use git_agentic.Agenticd.Limits.{
  LimitsConfig, ConnRejection, ConnGate, new_gate, unwrap_or, ConnGuard, try_admit, release,
  drop_guard,
}

-- How many of the connections are a user's
unfoldable pub count : ℕ → List ℕ → ℕ
count u [] = 0
count u (v ∷ live) = let rest = count u live in if v == u then suc rest else rest

count-append : (u : ℕ) (xs ys : List ℕ) → count u (xs ++ ys) ≡ count u xs + count u ys
unfolding count
count-append u [] ys = omega arith
count-append u (v ∷ xs) ys = ground (arith, count-append u xs ys)

-- What the map holds for a user with `n` connections
abbrev pub entry : ℕ → Option ℕ
entry zero = none
entry (suc n) = some (suc n)

-- The runs of a gate, with the users of the connections that are open
pub data Reach (c : LimitsConfig) : ConnGate → List ℕ → Type 0 where
  start : Reach c (new_gate c) []
  admitted :
      {g : ConnGate} {live : List ℕ} (uid : ℕ) (guard : ConnGuard)
      → Reach c g live
      → (try_admit uid g).0 ≡ ok guard
      → Reach c (try_admit uid g).1 (guard.uid ∷ live)
  refused :
      {g : ConnGate} {live : List ℕ} (uid : ℕ) (e : ConnRejection)
      → Reach c g live
      → (try_admit uid g).0 ≡ err e
      → Reach c (try_admit uid g).1 live
  closed :
      {g : ConnGate} (before : List ℕ) (guard : ConnGuard) (after : List ℕ)
      → Reach c g (before ++ (guard.uid ∷ after))
      → Reach c (drop_guard guard g) (before ++ after)

pub record IsExact (c : LimitsConfig) (g : ConnGate) (live : List ℕ) : Type 0 where
  pub same_global : g.max_global ≡ c.max_connections
  pub same_per_uid : g.max_per_uid ≡ c.max_connections_per_uid
  pub global : g.counts.global ≡ length live
  pub per_uid : (u : ℕ) → get g.counts.per_uid u ≡ entry (count u live)
  pub within_global : length live ≤ c.max_connections
  pub within_per_uid : (u : ℕ) → count u live ≤ c.max_connections_per_uid

pub unwrap_or-entry : (n : ℕ) → unwrap_or 0 (entry n) ≡ n
unwrap_or-entry zero = refl
unwrap_or-entry (suc n) = refl

module _ (c : LimitsConfig) where
  -- What an admission found, and what it made
  abbrev admission : ℕ → ConnGate → ConnGate
  admission uid g = record g {
    counts = record {
      global = suc g.counts.global;
      per_uid = insert g.counts.per_uid uid (suc (unwrap_or 0 (get g.counts.per_uid uid)));
    };
  }

  admit_ok :
      (g : ConnGate) (uid : ℕ) (guard : ConnGuard)
      → (try_admit uid g).0 ≡ ok guard
      → (g.counts.global < g.max_global)
        × (unwrap_or 0 (get g.counts.per_uid uid) < g.max_per_uid)
        × (guard.uid ≡ uid)
        × ((try_admit uid g).1 ≡ admission uid g)
  unfolding try_admit
  admit_ok g uid guard e = (ground arith, ground arith, ground arith, ground arith)

  admission-IsExact :
      (g : ConnGate) (live : List ℕ) (uid : ℕ)
      → IsExact c g live
      → g.counts.global < g.max_global
      → unwrap_or 0 (get g.counts.per_uid uid) < g.max_per_uid
      → IsExact c (admission uid g) (uid ∷ live)
  unfolding count
  admission-IsExact g live uid v some_left some_own =
      let own : unwrap_or 0 (get g.counts.per_uid uid) ≡ count uid live =
        ap (unwrap_or 0) (v.per_uid uid) ∙ unwrap_or-entry (count uid live) in
      record {
        same_global = v.same_global;
        same_per_uid = v.same_per_uid;
        global = ap suc v.global;
        per_uid = λ u. counted u own;
        within_global = omega (arith, v.global, v.same_global);
        within_per_uid = λ u. within u (omega (arith, own, v.same_per_uid));
      }
    where
      counted :
          (u : ℕ)
          → unwrap_or 0 (get g.counts.per_uid uid) ≡ count uid live
          → get (insert g.counts.per_uid uid (suc (unwrap_or 0 (get g.counts.per_uid uid)))) u
            ≡ entry (count u (uid ∷ live))
      counted u own = elim (Bool-cases (uid == u)) [
        | inl e ↦
            rw
              (
                get-insert g.counts.per_uid uid u (suc (unwrap_or 0 (get g.counts.per_uid uid))),
                e,
                own,
                eq_of_== uid u e,
              )
              refl
        | inr e ↦
            rw (get-insert g.counts.per_uid uid u (suc (unwrap_or 0 (get g.counts.per_uid uid))), e)
              (v.per_uid u)
      ]

      within :
          (u : ℕ)
          → suc (count uid live) ≤ c.max_connections_per_uid
          → count u (uid ∷ live) ≤ c.max_connections_per_uid
      within u h = elim (Bool-cases (uid == u)) [
        | inl e ↦
            rw e (subst (λ k. suc (count k live) ≤ c.max_connections_per_uid) (eq_of_== uid u e) h)
        | inr e ↦ rw e (v.within_per_uid u)
      ]

  admitted-IsExact :
      (g : ConnGate) (live : List ℕ) (uid : ℕ) (guard : ConnGuard)
      → IsExact c g live
      → (try_admit uid g).0 ≡ ok guard
      → IsExact c (try_admit uid g).1 (guard.uid ∷ live)
  admitted-IsExact g live uid guard v e =
      let (some_left, some_own, same, made) = admit_ok g uid guard e in
      rw (same, made) (admission-IsExact g live uid v some_left some_own)

  refused-same :
      (g : ConnGate) (uid : ℕ) (e : ConnRejection)
      → (try_admit uid g).0 ≡ err e
      → (try_admit uid g).1 ≡ g
  unfolding try_admit
  refused-same g uid e h = ground arith

  release-entry :
      (m : Dict ℕ ℕ) (uid u n : ℕ)
      → get m uid ≡ entry (suc n)
      → get (release m uid (get m uid)) u ≡ (if uid == u then entry n else get m u)
  release-entry m uid u zero e = ground (arith, get-remove m uid u)
  release-entry m uid u (suc n) e =
      let p : suc (suc n) - 1 ≡ suc n = omega arith in ground (arith, get-insert m uid u (suc n))

  closed-IsExact :
      (g : ConnGate) (before : List ℕ) (guard : ConnGuard) (after : List ℕ)
      → IsExact c g (before ++ (guard.uid ∷ after))
      → IsExact c (drop_guard guard g) (before ++ after)
  unfolding drop_guard count
  closed-IsExact g before guard after v = record {
    same_global = v.same_global;
    same_per_uid = v.same_per_uid;
    global =
        omega
          (arith, v.global, length-append before (guard.uid ∷ after), length-append before after);
    per_uid = λ u. counted u;
    within_global = omega (
      arith,
      v.within_global,
      length-append before (guard.uid ∷ after),
      length-append before after,
    );
    within_per_uid = λ u. within u;
  }
    where
      own :
          count guard.uid (before ++ (guard.uid ∷ after)) ≡ suc (count guard.uid (before ++ after))
      own =
          rw
            (
              count-append guard.uid before (guard.uid ∷ after),
              count-append guard.uid before after,
              ==_refl guard.uid,
              count,
            )
            (omega arith)

      others :
          (u : ℕ)
          → (guard.uid == u) ≡ false
          → count u (before ++ (guard.uid ∷ after)) ≡ count u (before ++ after)
      others u e =
          rw (count-append u before (guard.uid ∷ after), count-append u before after, e, count) refl

      freed :
          (u : ℕ)
          → get (release g.counts.per_uid guard.uid (get g.counts.per_uid guard.uid)) u ≡ (
              if guard.uid == u
              then entry (count guard.uid (before ++ after))
              else get g.counts.per_uid u)
      freed u =
          release-entry g.counts.per_uid guard.uid u (count guard.uid (before ++ after))
            (v.per_uid guard.uid ∙ ap entry own)

      counted :
          (u : ℕ)
          → get (release g.counts.per_uid guard.uid (get g.counts.per_uid guard.uid)) u
            ≡ entry (count u (before ++ after))
      counted u = elim (Bool-cases (guard.uid == u)) [
        | inl e ↦
            freed u ∙ rw e (ap (λ k. entry (count k (before ++ after))) (eq_of_== guard.uid u e))
        | inr e ↦ freed u ∙ rw e (v.per_uid u ∙ ap entry (others u e))
      ]

      within : (u : ℕ) → count u (before ++ after) ≤ c.max_connections_per_uid
      within u = elim (Bool-cases (guard.uid == u)) [
        | inl e ↦
            subst (λ k. count k (before ++ after) ≤ c.max_connections_per_uid)
              (eq_of_== guard.uid u e) (omega (arith, own, v.within_per_uid guard.uid))
        | inr e ↦ subst (λ n. n ≤ c.max_connections_per_uid) (others u e) (v.within_per_uid u)
      ]

  pub Reach-IsExact : {g : ConnGate} {live : List ℕ} → Reach c g live → IsExact c g live
  unfolding count
  Reach-IsExact start = record {
    same_global = refl;
    same_per_uid = refl;
    global = refl;
    per_uid = λ u. unfold get in refl;
    within_global = omega arith;
    within_per_uid = λ u. omega arith;
  }
  Reach-IsExact (admitted {g} {live} uid guard run e) =
      admitted-IsExact g live uid guard (Reach-IsExact run) e
  Reach-IsExact (refused {g} {live} uid r run e) = rw (refused-same g uid r e) (Reach-IsExact run)
  Reach-IsExact (closed {g} before guard after run) =
      closed-IsExact g before guard after (Reach-IsExact run)
