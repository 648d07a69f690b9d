-- ===== src/Agenticd/Server/ReadBack.antt =====
-- What a client reads of an object it can check against the address.
use git_agentic.Common.{
  ℕ, ◌≡◌, refl, ◌∙◌, Option, ok, bind-eq-ok, map_err-eq-ok, lift, pure, arith, ◌++◌, map_err,
}
use git_agentic.Common.Text.{Bytes, Text, codes}
use git_agentic.Core.Hash.{Hash, of, to_hex, from_str}
use git_agentic.Core.Object.{Object, hash, blob_hash, tree_hash, commit_hash}
use git_agentic.Core.Store.Laws.{StoreLaws}
use git_agentic.Proto.Messages.{Request, Response}
use git_agentic.Agenticd.Failure.{anyhow, Root, rooted, with_context}
use git_agentic.Agenticd.Commit.Recorded.{with_context-eq-ok, rooted-eq-ok}
use git_agentic.Agenticd.Daemon.{Outside, DaemonState}
use git_agentic.Agenticd.Server.Dispatch.{Queue, dispatch, read_object, object_reply, canonical}

module _ {S : Type 0} (o : Outside S) (st : DaemonState S) where
  canonical_address :
      (object : Object) → of o.codec.blake3 (canonical o st object).1 ≡ hash o.codec object
  unfolding canonical hash blob_hash tree_hash commit_hash
  canonical_address (Object.blob b) = refl
  canonical_address (Object.tree t) = refl
  canonical_address (Object.commit c) = refl

  same_bytes :
      (h : Hash) (p : Text × Bytes) {text k : Text} {bytes : Bytes}
      → object_reply o st h p ≡ Response.object_data text k bytes
      → (bytes ≡ p.1) × (text ≡ to_hex o.hex h)
  unfolding object_reply
  same_bytes h (k, b) e = ground arith

  -- The bytes of a reply to a request for an object hash to the address that the reply names, which
  -- is the address that was asked for: the client need not trust the daemon.
  pub read_object_checks :
      StoreLaws o.codec st.store
      → (w : Queue S) (asked : Text) (peer_uid : Option ℕ) (s : S) (text kind : Text)
        (bytes : Bytes)
      → (dispatch o st w (Request.read_object asked) peer_uid s).0
        ≡ ok (Response.object_data text kind bytes)
      → (from_str o.hex asked ≡ ok (of o.codec.blake3 bytes))
        × (text ≡ to_hex o.hex (of o.codec.blake3 bytes))
  unfolding dispatch read_object
  read_object_checks laws w asked peer_uid s text kind bytes e =
      let (h, parsed, rest) =
        bind-eq-ok
          (with_context (codes "invalid hash: " ++ asked)
            (lift (map_err (λ e. anyhow (o.fmt.hash_error e)) (from_str o.hex asked))))
          _ s e in
      let (object, got, last) =
        bind-eq-ok
          (with_context (codes "reading object " ++ asked) (rooted Root.core (st.store.get h)))
          (λ object. pure (object_reply o st h (canonical o st object))) s rest in
      finished h object (map_err-eq-ok _ (from_str o.hex asked) (map_err-eq-ok _ _ parsed))
        (rooted-eq-ok Root.core (st.store.get h) s
          (with_context-eq-ok _ (rooted Root.core (st.store.get h)) s got))
        (cc last)
    where
      finished :
          (h : Hash) (object : Object)
          → from_str o.hex asked ≡ ok h
          → (st.store.get h s).0 ≡ ok object
          → object_reply o st h (canonical o st object) ≡ Response.object_data text kind bytes
          → (from_str o.hex asked ≡ ok (of o.codec.blake3 bytes))
            × (text ≡ to_hex o.hex (of o.codec.blake3 bytes))
      finished h object parsed got e =
          let (b, t) = same_bytes h (canonical o st object) e in
          let address : of o.codec.blake3 bytes ≡ h =
            rw b (canonical_address object ∙ laws.get_address s h object got) in
          (rw address parsed, rw address t)
