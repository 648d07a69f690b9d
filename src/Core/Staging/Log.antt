-- ===== src/Core/Staging/Log.antt =====
-- The log that `walk_log` gives.
use git_agentic.Common.{
  ℕ, zero, suc, ◌≡◌, ◌∙◌, ap, Option, none, some, List, [], ◌∷◌, ok, Yields, Yields-bind,
  Yields-pure, ◌≤◌, length, arith,
}
use git_agentic.Core.Hash.{Hash}
use git_agentic.Core.Object.{Object, Commit, Codec, hash}
use git_agentic.Core.Store.{ObjectStore}
use git_agentic.Core.Store.Laws.{StoreLaws}
use git_agentic.Core.Staging.{commit_of_object, walk_log_from, walk_log}

-- A chain of commits from an address: each has the address that its child names, and the chain
-- ends at a commit without parent unless it was cut at the limit.
pub data Chain (x : Codec) : ℕ → Option Hash → List (Hash × Commit) → Type 0 where
  root : {limit : ℕ} → Chain x limit none []
  cut : {h : Hash} → Chain x 0 (some h) []
  link :
      {limit : ℕ} {h : Hash} {c : Commit} {later : List (Hash × Commit)}
      → hash x (Object.commit c) ≡ h
      → Chain x limit c.parent later
      → Chain x (suc limit) (some h) ((h, c) ∷ later)

module _ {S : Type 0} (x : Codec) (store : ObjectStore S) (laws : StoreLaws x store) where
  get-Yields : (h : Hash) → Yields (λ o. hash x o ≡ h) (store.get h)
  get-Yields h = record { at = λ s o e. laws.get_address s h o e }

  commit-Yields :
      (o : Object) → Yields {S = S} (λ c. Object.commit c ≡ o) (λ s. (commit_of_object o, s))
  commit-Yields (Object.commit c) = record { at = λ s a e. cc }
  commit-Yields (Object.blob b) = record { at = λ s a e. cc }
  commit-Yields (Object.tree t) = record { at = λ s a e. cc }

  walk_log_from-Chain :
      (limit : ℕ) (start : Option Hash)
      → Yields (λ log. Chain x limit start log) (walk_log_from store limit start)
  unfolding walk_log_from
  walk_log_from-Chain limit none = Yields-pure [] root
  walk_log_from-Chain zero (some h) = Yields-pure [] cut
  walk_log_from-Chain (suc limit) (some h) = Yields-bind _ _ (get-Yields h) λ o eo.
      Yields-bind _ _ (commit-Yields o) λ c ec.
        Yields-bind _ _ (walk_log_from-Chain limit c.parent)
          λ later chain. Yields-pure _ (link (ap (hash x) ec ∙ eo) chain)

  Chain-length :
      {limit : ℕ} {start : Option Hash} {log : List (Hash × Commit)}
      → Chain x limit start log
      → length log ≤ limit
  Chain-length root = omega arith
  Chain-length cut = omega arith
  Chain-length (link e c) = omega (arith, Chain-length c)

  -- A log that `walk_log` returns is a chain of commits from the start, each with the address that
  -- its child names as parent, to one without parent or to the limit, and no longer than the limit.
  pub walk_log-Chain :
      (start : Hash) (limit : ℕ) (s : S) (log : List (Hash × Commit))
      → (walk_log store start limit s).0 ≡ ok log
      → Chain x limit (some start) log × (length log ≤ limit)
  unfolding walk_log
  walk_log-Chain start limit s log e =
      let chain = (walk_log_from-Chain limit (some start)).at s log e in (chain, Chain-length chain)
