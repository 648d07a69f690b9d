-- ===== src/Core/Staging/Order.antt =====
-- The order of a commit: everything is staged first, the branch ref comes last.
use git_agentic.Common.{
  ℕ, ◌≡◌, refl, sym, ◌∙◌, ap, true, Option, none, some, List, [], ◌∷◌, ◌++◌, Result, ok, err,
  Action, pure, ◌>>=◌, Keeps, Keeps-bind, Keeps-pure, bind-eq-ok, bind-ok, continue,
}
use mathlib.Core.Path.{subst}
use git_agentic.Common.SortedMap.{SortedMap}
use git_agentic.Common.Text.{Bytes, Text}
use git_agentic.External.{Hex}
use git_agentic.Fs.{Disk, content}
use git_agentic.Core.Error.{Error}
use git_agentic.Core.Hash.{Hash, to_hex}
use git_agentic.Core.Object.{Tree, Object, tree_insert, empty_tree, Codec, hash}
use git_agentic.Core.Store.{ObjectStore, put}
use git_agentic.Core.Store.Laws.{StoreLaws}
use git_agentic.Core.Scanner.{ScanPolicy, default_policy}
use git_agentic.Core.Refs.{Refs, write_branch, branch_file, validate_branch_name, newline}
use git_agentic.Core.Refs.Writes.{write_branch_valid, write_branch-Reports}
use git_agentic.Core.Staging.Blobs.{commit_of, stage-Yields}
use git_agentic.Core.Staging.{
  CommitInputs, CommitOutputs, DiskOf, on_disk, blob_of, blob_ref, stage_entries, stage_blob_tree,
  stage_optional_blob, stage_inputs, stage, stage_and_commit_with_now,
}

-- The store and the refs share a state without disturbing each other.
pub record Apart {S : Type 0} (store : ObjectStore S) (l : DiskOf S) (x : Hex) (r : Refs)
    : Type 0 where
  pub disk-set_disk : (d : Disk) (s : S) → l.disk (l.set_disk d s) ≡ d
  pub put_apart :
      (o : Object) (policy : ScanPolicy) (s : S) (n : Text)
      → content (l.disk (store.put_with_policy o policy s).1) (branch_file r n)
        ≡ content (l.disk s) (branch_file r n)
  pub write_apart :
      (n : Text) (h k : Hash) (s : S)
      → store.has s k ≡ true
      → store.has (l.set_disk (write_branch x r n h (l.disk s)).1 s) k ≡ true

module _ {S : Type 0} (store : ObjectStore S) (P : S → Type 0)
    (kp : (o : Object) (policy : ScanPolicy) → Keeps P (store.put_with_policy o policy)) where
  stage_entries-Keeps :
      (entries : List (Text × Bytes)) (exempt : List Text) (t : Tree)
      → Keeps P (stage_entries store entries exempt t)
  unfolding stage_entries
  stage_entries-Keeps [] exempt t = Keeps-pure t
  stage_entries-Keeps ((name, b) ∷ entries) exempt t =
      Keeps-bind _ _ (kp (blob_of b) _)
        λ h. stage_entries-Keeps entries exempt (tree_insert t name (blob_ref h))

  stage_blob_tree-Keeps :
      (m : SortedMap Bytes) (exempt : List Text) → Keeps P (stage_blob_tree store m exempt)
  unfolding stage_blob_tree put
  stage_blob_tree-Keeps [] exempt = Keeps-pure none
  stage_blob_tree-Keeps (e ∷ entries) exempt =
      Keeps-bind _ _ (stage_entries-Keeps (e ∷ entries) exempt empty_tree)
        λ t. Keeps-bind _ _ (kp (Object.tree t) default_policy) λ h. Keeps-pure (some h)

  stage_optional_blob-Keeps : (o : Option Bytes) → Keeps P (stage_optional_blob store o)
  unfolding stage_optional_blob put
  stage_optional_blob-Keeps none = Keeps-pure none
  stage_optional_blob-Keeps (some b) =
      Keeps-bind _ _ (kp (blob_of b) default_policy) λ h. Keeps-pure (some h)

  -- What every put keeps, staging keeps.
  pub stage-Keeps : (inputs : CommitInputs) (now : ℕ) → Keeps P (stage store inputs now)
  unfolding stage stage_inputs put
  stage-Keeps inputs now =
      Keeps-bind _ _
        (Keeps-bind _ _ (stage_blob_tree-Keeps inputs.prompts inputs.exempt_entropy_prefixes) λ p.
          Keeps-bind _ _ (stage_blob_tree-Keeps inputs.tools inputs.exempt_entropy_prefixes) λ t.
            Keeps-bind _ _ (stage_optional_blob-Keeps inputs.model) λ m.
              Keeps-bind _ _ (stage_optional_blob-Keeps inputs.intent) λ i.
                Keeps-bind _ _ (stage_optional_blob-Keeps inputs.plan) λ l.
                  Keeps-bind _ _ (stage_optional_blob-Keeps inputs.transcript)
                    λ r. Keeps-bind _ _ (stage_optional_blob-Keeps inputs.evals) λ v. Keeps-pure _)
        λ c. kp (Object.commit c) default_policy

module _ {S : Type 0} (k : Codec) (store : ObjectStore S) (laws : StoreLaws k store) (l : DiskOf S)
    (x : Hex) (r : Refs) (apart : Apart store l x r) (branch : Text) (inputs : CommitInputs)
    (now : ℕ) where
  abbrev run : S → Result Error CommitOutputs × S
  run = stage_and_commit_with_now store l x r branch inputs now

  stage-has :
      (s : S) (h : Hash)
      → (stage store inputs now s).0 ≡ ok h
      → store.has (stage store inputs now s).1 h ≡ true
  unfolding stage put
  stage-has s h e =
      let (c, ec, eh) =
        bind-eq-ok (stage_inputs store inputs now) (λ c. put store (Object.commit c)) s e in
      subst (λ (t : Result Error Hash × S). store.has t.1 h ≡ true)
        (sym (bind-ok (stage_inputs store inputs now) (λ c. put store (Object.commit c)) s ec))
        (laws.put_has (Object.commit c) default_policy (stage_inputs store inputs now s).1 h eh)

  stage-apart :
      (s : S) (n : Text)
      → content (l.disk (stage store inputs now s).1) (branch_file r n)
        ≡ content (l.disk s) (branch_file r n)
  stage-apart s n =
      (stage-Keeps store
          (λ t. content (l.disk t) (branch_file r n) ≡ content (l.disk s) (branch_file r n))
          (λ o policy. record { at = λ t e. apart.put_apart o policy t n ∙ e }) inputs now).at
        s refl

  outputs : Hash → CommitOutputs
  outputs h = record { commit_hash = h; branch = branch }

  publish : Hash → Action S Error CommitOutputs
  publish h = on_disk l (write_branch x r branch h) >>= λ _. pure (outputs h)

  run_staged :
      (s : S) (h : Hash)
      → (stage store inputs now s).0 ≡ ok h
      → run s ≡ publish h (stage store inputs now s).1
  unfolding stage_and_commit_with_now publish outputs
  run_staged s h e = bind-ok (stage store inputs now) publish s e

  run_unstaged :
      (s : S) (e : Error)
      → (stage store inputs now s).0 ≡ err e
      → run s ≡ (err e, (stage store inputs now s).1)
  unfolding stage_and_commit_with_now publish outputs
  run_unstaged s e h =
      ap (λ (t : Result Error Hash). continue t publish (stage store inputs now s).1) h

  -- What is so after a commit that succeeded
  pub record Committed (s : S) (out : CommitOutputs) : Type 0 where
    pub address : out.commit_hash ≡ hash k (Object.commit (commit_of k inputs now))
    pub same_branch : out.branch ≡ branch
    pub has_commit : store.has s out.commit_hash ≡ true
    pub branch_line :
        content (l.disk s) (branch_file r branch) ≡ some (to_hex x out.commit_hash ++ newline)

  published-Committed :
      (s : S) (h : Hash) (out : CommitOutputs)
      → hash k (Object.commit (commit_of k inputs now)) ≡ h
      → store.has s h ≡ true
      → (publish h s).0 ≡ ok out
      → Committed (publish h s).1 out
  unfolding publish on_disk outputs
  published-Committed s h out address has e = go (write_branch x r branch h (l.disk s)).0 refl e
    where
      d' : Disk
      d' = (write_branch x r branch h (l.disk s)).1

      done :
          (write_branch x r branch h (l.disk s)).0 ≡ ok tt → Committed (l.set_disk d' s) (outputs h)
      done w = record {
        address = sym address;
        same_branch = refl;
        has_commit = apart.write_apart branch h h s has;
        branch_line = rw (apart.disk-set_disk d' s) (
            (write_branch-Reports x r branch h (write_branch_valid x r branch h (l.disk s) w)
                (l.disk s)).0
              w);
      }

      go :
          (t : Result Error (Unit {0}))
          → (write_branch x r branch h (l.disk s)).0 ≡ t
          → (continue t (λ _. pure (outputs h)) (l.set_disk d' s)).0 ≡ ok out
          → Committed (continue t (λ _. pure (outputs h)) (l.set_disk d' s)).1 out
      go (ok tt) w e = subst (λ (o : CommitOutputs). Committed (l.set_disk d' s) o) (cc) (done w)
      go (err q) w e = cc

  published-failed :
      (s : S) (h : Hash) (e : Error)
      → validate_branch_name branch ≡ ok tt
      → (publish h s).0 ≡ err e
      → content (l.disk (publish h s).1) (branch_file r branch)
        ≡ content (l.disk s) (branch_file r branch)
  unfolding publish on_disk outputs
  published-failed s h e v f = go (write_branch x r branch h (l.disk s)).0 refl f
    where
      d' : Disk
      d' = (write_branch x r branch h (l.disk s)).1

      go :
          (t : Result Error (Unit {0}))
          → (write_branch x r branch h (l.disk s)).0 ≡ t
          → (continue t (λ _. pure (outputs h)) (l.set_disk d' s)).0 ≡ err e
          → content
              (l.disk (continue t (λ _. pure (outputs h)) (l.set_disk d' s)).1)
              (branch_file r branch)
            ≡ content (l.disk s) (branch_file r branch)
      go (ok tt) w e = cc
      go (err q) w e =
          rw (apart.disk-set_disk d' s) ((write_branch-Reports x r branch h v (l.disk s)).1 q w)

  -- A commit that reports success wrote the commit of its inputs: the address it returns is that
  -- commit's, the store has it, and the file of the branch holds that address and a line end.
  pub commit-Committed :
      (s : S) (out : CommitOutputs)
      → (stage_and_commit_with_now store l x r branch inputs now s).0 ≡ ok out
      → Committed (stage_and_commit_with_now store l x r branch inputs now s).1 out
  unfolding stage_and_commit_with_now
  commit-Committed s out e = go (stage store inputs now s).0 refl
    where
      go : (t : Result Error Hash) → (stage store inputs now s).0 ≡ t → Committed (run s).1 out
      go (ok h) st =
          subst (λ (w : Result Error CommitOutputs × S). Committed w.1 out)
            (sym (run_staged s h st))
            (published-Committed (stage store inputs now s).1 h out
              ((stage-Yields k store laws inputs now).at s h st) (stage-has s h st)
              (rw (run_staged s h st) at e))
      go (err q) st = cc

  -- A commit to a valid branch that reports a failure, at whatever step and whatever system call,
  -- leaves the file of the branch as it was.
  pub commit_failed :
      (s : S) (e : Error)
      → validate_branch_name branch ≡ ok tt
      → (stage_and_commit_with_now store l x r branch inputs now s).0 ≡ err e
      → content
          (l.disk (stage_and_commit_with_now store l x r branch inputs now s).1)
          (branch_file r branch)
        ≡ content (l.disk s) (branch_file r branch)
  commit_failed s e v f = go (stage store inputs now s).0 refl
    where
      Same : Result Error CommitOutputs × S → Type 0
      Same w =
          content (l.disk w.1) (branch_file r branch) ≡ content (l.disk s) (branch_file r branch)

      go : (t : Result Error Hash) → (stage store inputs now s).0 ≡ t → Same (run s)
      go (ok h) st = subst Same (sym (run_staged s h st)) (
          published-failed (stage store inputs now s).1 h e v (rw (run_staged s h st) at f)
          ∙ stage-apart s branch)
      go (err q) st = subst Same (sym (run_unstaged s q st)) (stage-apart s branch)

  -- Two commits of the same inputs at the same time that succeed return the same address, whatever
  -- the store held before each.
  pub commit-idempotent :
      (s t : S) (a b : CommitOutputs)
      → (stage_and_commit_with_now store l x r branch inputs now s).0 ≡ ok a
      → (stage_and_commit_with_now store l x r branch inputs now t).0 ≡ ok b
      → a ≡ b
  commit-idempotent s t a b ea eb =
      let ca = commit-Committed s a ea in
      let cb = commit-Committed t b eb in
      cc (ca.address, cb.address, ca.same_branch, cb.same_branch)
