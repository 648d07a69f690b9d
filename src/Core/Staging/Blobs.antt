-- ===== src/Core/Staging/Blobs.antt =====
-- What staging makes of its inputs, whatever the store held before: the commit of the inputs.
use git_agentic.Common.{
  ℕ, ◌≡◌, refl, ap, Option, none, some, List, [], ◌∷◌, Yields, Yields-pure, Yields-bind,
}
use git_agentic.Common.SortedMap.{SortedMap}
use git_agentic.Common.Text.{Bytes, Text}
use git_agentic.Core.Hash.{Hash}
use git_agentic.Core.Object.{Tree, Commit, Object, tree_insert, empty_tree, Codec, hash, ObjectKind}
use git_agentic.Core.Store.{ObjectStore, put}
use git_agentic.Core.Store.Laws.{StoreLaws}
use git_agentic.Core.Scanner.{ScanPolicy, default_policy}
use git_agentic.Core.Staging.{
  CommitInputs, blob_of, blob_ref, stage_entries, stage_blob_tree, stage_optional_blob,
  stage_inputs, stage,
}

module _ (x : Codec) where
  -- The tree of some entries, their payloads addressed by content
  unfoldable pub tree_of : List (Text × Bytes) → Tree → Tree
  tree_of [] t = t
  tree_of ((name, b) ∷ entries) t = tree_of entries (
      tree_insert t name
        (record { kind = ObjectKind.blob; hash = hash x (Object.blob (record { bytes = b })) }))

  unfoldable pub tree_address : SortedMap Bytes → Option Hash
  tree_address [] = none
  tree_address (e ∷ entries) = some (hash x (Object.tree (tree_of (e ∷ entries) empty_tree)))

  unfoldable pub payload_address : Option Bytes → Option Hash
  payload_address none = none
  payload_address (some b) = some (hash x (Object.blob (record { bytes = b })))

  -- The commit of some inputs, without a store: field by field
  unfoldable pub commit_of : CommitInputs → ℕ → Commit
  commit_of inputs now = record {
    parent = inputs.parent;
    author = inputs.author;
    timestamp = now;
    message = inputs.message;
    code_sha = inputs.code_sha;
    prompts = tree_address inputs.prompts;
    tools = tree_address inputs.tools;
    model = payload_address inputs.model;
    memory_snapshot = inputs.memory_snapshot;
    schema_version = inputs.schema_version;
    intent = payload_address inputs.intent;
    plan = payload_address inputs.plan;
    transcript = payload_address inputs.transcript;
    evals = payload_address inputs.evals;
    cost_cents = inputs.cost_cents;
    signatures = [];
    peer_uid = inputs.peer_uid;
  }

module _ {S : Type 0} (x : Codec) (store : ObjectStore S) (laws : StoreLaws x store) where
  put-Yields :
      (o : Object) (policy : ScanPolicy)
      → Yields (λ h. hash x o ≡ h) (store.put_with_policy o policy)
  put-Yields o policy = record { at = λ s h e. laws.put_address o policy s h e }

  stage_entries-Yields :
      (entries : List (Text × Bytes)) (exempt : List Text) (t : Tree)
      → Yields (λ u. tree_of x entries t ≡ u) (stage_entries store entries exempt t)
  unfolding stage_entries tree_of
  stage_entries-Yields [] exempt t = Yields-pure t refl
  stage_entries-Yields ((name, b) ∷ entries) exempt t =
      Yields-bind _ _ (put-Yields (blob_of b) _)
        λ h e. rw e (stage_entries-Yields entries exempt (tree_insert t name (blob_ref h)))

  stage_blob_tree-Yields :
      (m : SortedMap Bytes) (exempt : List Text)
      → Yields (λ o. tree_address x m ≡ o) (stage_blob_tree store m exempt)
  unfolding stage_blob_tree tree_address put
  stage_blob_tree-Yields [] exempt = Yields-pure none refl
  stage_blob_tree-Yields (e ∷ entries) exempt =
      Yields-bind _ _ (stage_entries-Yields (e ∷ entries) exempt empty_tree) λ t u.
        Yields-bind _ _ (put-Yields (Object.tree t) default_policy)
          λ h v. Yields-pure (some h) (rw u (ap some v))

  stage_optional_blob-Yields :
      (o : Option Bytes) → Yields (λ h. payload_address x o ≡ h) (stage_optional_blob store o)
  unfolding stage_optional_blob payload_address put
  stage_optional_blob-Yields none = Yields-pure none refl
  stage_optional_blob-Yields (some b) =
      Yields-bind _ _ (put-Yields (blob_of b) default_policy)
        λ h v. Yields-pure (some h) (ap some v)

  stage_inputs-Yields :
      (inputs : CommitInputs) (now : ℕ)
      → Yields (λ c. commit_of x inputs now ≡ c) (stage_inputs store inputs now)
  unfolding stage_inputs commit_of
  stage_inputs-Yields inputs now =
      Yields-bind _ _ (stage_blob_tree-Yields inputs.prompts inputs.exempt_entropy_prefixes) λ p ep.
        Yields-bind _ _ (stage_blob_tree-Yields inputs.tools inputs.exempt_entropy_prefixes) λ t et.
          Yields-bind _ _ (stage_optional_blob-Yields inputs.model) λ m em.
            Yields-bind _ _ (stage_optional_blob-Yields inputs.intent) λ i ei.
              Yields-bind _ _ (stage_optional_blob-Yields inputs.plan) λ l el.
                Yields-bind _ _ (stage_optional_blob-Yields inputs.transcript) λ r er.
                  Yields-bind _ _ (stage_optional_blob-Yields inputs.evals)
                    λ v ev. Yields-pure _ (rw (ep, et, em, ei, el, er, ev))

  -- Staging returns the address of the commit of its inputs.
  pub stage-Yields :
      (inputs : CommitInputs) (now : ℕ)
      → Yields (λ h. hash x (Object.commit (commit_of x inputs now)) ≡ h) (stage store inputs now)
  unfolding stage put
  stage-Yields inputs now =
      Yields-bind _ _ (stage_inputs-Yields inputs now)
        λ c e. rw e (put-Yields (Object.commit c) default_policy)
