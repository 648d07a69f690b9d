-- ===== src/Core/Diff/Same.antt =====
-- A commit does not differ from itself.
use git_agentic.Common.{
  ◌≡◌, refl, sym, ap, ◌∙◌, true, Option, none, ok, nat_eq, list_eq, option_eq, ==_refl, Yields,
  Yields-pure, Yields-bind,
}
use git_agentic.Common.Text.{Bytes, Text}
use git_agentic.Core.Hash.{Hash}
use git_agentic.Core.Object.{Commit, Object}
use git_agentic.Core.Store.{ObjectStore}
use git_agentic.Core.Diff.{
  CommitDiff, commit_diff_is_empty, string_change, hash_change, diff_tree, diff_model_blob,
  load_commit, diff, diff_loaded,
}

string_change_same : (a b : Option Text) → a ≡ b → string_change a b ≡ none
unfolding string_change
string_change_same a b e = rw (e, ==_refl b)

hash_change_same : (a b : Option Hash) → a ≡ b → hash_change a b ≡ none
unfolding hash_change
hash_change_same a b e = rw (e, ==_refl b)

module _ {S : Type 0} (store : ObjectStore S) where
  -- Equal dimensions are not loaded.
  diff_tree_same : (a b : Option Hash) → a ≡ b → Yields (λ d. d ≡ none) (diff_tree store a b)
  unfolding diff_tree
  diff_tree_same a b e = rw (e, ==_refl b) (Yields-pure none refl)

  diff_model_blob_same :
      (lossy : Bytes → Text) (a b : Option Hash)
      → a ≡ b
      → Yields (λ d. d ≡ none) (diff_model_blob store lossy a b)
  unfolding diff_model_blob
  diff_model_blob_same lossy a b e = rw (e, ==_refl b) (Yields-pure none refl)

  -- The store has the commit `c`, and nothing else, at the address `h`.
  abbrev pub Has : Hash → Commit → Type 0
  Has h c = (s : S) (o : Object) → (store.get h s).0 ≡ ok o → o ≡ Object.commit c

  load_commit-Yields : (h : Hash) (c : Commit) → Has h c → Yields (λ a. c ≡ a) (load_commit store h)
  unfolding load_commit
  load_commit-Yields h c has =
      Yields-bind _ _ (record { at = λ s o e. has s o e }) λ o e. rw e (Yields-pure c refl)

-- What `diff` compares of a commit
abbrev pub dimensions :
    Commit → Option Text × Option Hash × Option Hash × Option Hash × Option Hash × Option Text
dimensions c = (c.code_sha, c.prompts, c.tools, c.model, c.memory_snapshot, c.schema_version)

module _ {S : Type 0} (store : ObjectStore S) (lossy : Bytes → Text) (from to : Hash)
    (a b : Commit) where
  -- Two commits with the same code, prompts, tools, model, memory and schema have an empty diff,
  -- as has a commit with itself: a diff that `diff` returns for them says that nothing changed.
  diff_same :
      (has_from : Has store from a) (has_to : Has store to b)
      → dimensions a ≡ dimensions b
      → (s : S) (d : CommitDiff) → (diff store lossy from to s).0 ≡ ok d
      → commit_diff_is_empty d ≡ true
  unfolding diff commit_diff_is_empty
  diff_same has_from has_to same = λ s d e. yields.at s d e
    where
      IsEmpty : CommitDiff → Type 0
      IsEmpty d = commit_diff_is_empty d ≡ true

      rest :
          (c d : Commit)
          → dimensions c ≡ dimensions d
          → Yields IsEmpty (diff_loaded store lossy from to c d)
      rest c d e = Yields-bind _ _ (diff_tree_same store c.prompts d.prompts (cc)) λ p ep.
          Yields-bind _ _ (diff_tree_same store c.tools d.tools (cc)) λ t et.
            Yields-bind _ _ (diff_model_blob_same store lossy c.model d.model (cc)) λ m em.
              Yields-pure _ (
                rw
                  (
                    ep,
                    et,
                    em,
                    string_change_same c.code_sha d.code_sha (cc),
                    string_change_same c.schema_version d.schema_version (cc),
                    hash_change_same c.memory_snapshot d.memory_snapshot (cc),
                  )
                  refl)

      yields : Yields IsEmpty (diff store lossy from to)
      yields = Yields-bind _ _ (load_commit-Yields store from a has_from) λ c ec.
          Yields-bind _ _ (load_commit-Yields store to b has_to)
            λ d ed. rest c d (ap dimensions (sym ec) ∙ same ∙ ap dimensions ed)
