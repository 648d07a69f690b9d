-- ===== src/Agenticd/Server/Order.antt =====
-- The replies of a connection answer its frames, one each and in their order.
use git_agentic.Common.{
  ℕ, ◌≡◌, refl, ap, Bool, true, false, Option, some, List, [], ◌∷◌, ◌++◌, map, Result, ok, err,
  if◌then◌else◌, nat_eq, inl, inr, All,
}
use git_agentic.Common.Text.{Bytes, Text}
use git_agentic.Proto.Messages.{Request, Response, Envelope, new_envelope, protocol_version}
use git_agentic.Agenticd.Failure.{Failure}
use git_agentic.Agenticd.Daemon.{Outside, DaemonState}
use git_agentic.Agenticd.Limits.{Clock, LimitsConfig}
use git_agentic.Agenticd.Server.Dispatch.{Queue}
use git_agentic.Agenticd.Server.Envelopes.{
  EnvelopeJson, EnvelopeParseError, attributable, unattributable, parse_envelope,
}
use git_agentic.Agenticd.Server.Named.{id_of, Named, parse_cases}
use git_agentic.Agenticd.Server.Connection.{
  Delivery, sent, overdue, unsent, Incoming, idle, closed, too_large, broken, frame, Rate, Log,
  Reaction, reply, close, consume, react_to, react, handle_connection, limited, ended, before,
  failed, stalled,
}

module _ (json : EnvelopeJson) where
  -- The replies are to the first of what came in, one each.
  pub record InOrder (incoming : List Incoming) (replies : List (Envelope Response)) : Type 0 where
    pub first : List Incoming
    pub rest : List Incoming
    pub parts : incoming ≡ first ++ rest
    pub ids :
        map (id_of json) first ≡ map (λ (e : Envelope Response). some e.correlation_id) replies
    pub versions : All (λ (e : Envelope Response). e.version ≡ protocol_version) replies

  none_yet : (incoming : List Incoming) → InOrder incoming []
  none_yet incoming = record {
    first = [];
    rest = incoming;
    parts = refl;
    ids = refl;
    versions = tt;
  }

  one_more :
      (bytes : Bytes) (later : List Incoming) (e : Envelope Response)
      (replies : List (Envelope Response))
      → id_of json (frame bytes) ≡ some e.correlation_id
      → e.version ≡ protocol_version
      → InOrder later replies
      → InOrder (frame bytes ∷ later) (e ∷ replies)
  one_more bytes later e replies i v r = record {
    first = frame bytes ∷ r.first;
    rest = r.rest;
    parts = ap (λ (l : List Incoming). frame bytes ∷ l) r.parts;
    ids = cc (i, r.ids);
    versions = (v, r.versions);
  }

module _ (c : Clock) {S : Type 0} (o : Outside S) (st : DaemonState S) (w : Queue S)
    (rate : Rate c S) (json : EnvelopeJson) (limits : LimitsConfig) (observed_uid : ℕ)
    (peer_uid : Option ℕ) where
  abbrev run : List Incoming → List Delivery → S → Log S
  run = handle_connection c o st w rate json limits observed_uid peer_uid

  told :
      (id : Text) (a e : Envelope Response)
      → ◌≡◌ {A = Reaction c o st w rate json limits observed_uid peer_uid} (reply a) (reply e)
      → a.correlation_id ≡ id
      → (e.correlation_id ≡ id) × (e.version ≡ a.version)
  told id a e h n = let same : e ≡ a = cc h in rw same (n, refl)

  replied :
      (id : Text) (r : Result EnvelopeParseError (Text × Request)) (s : S) (e : Envelope Response)
      → Named json id r
      → (react_to c o st w rate json limits observed_uid peer_uid r s).0 ≡ reply e
      → (e.correlation_id ≡ id) × (e.version ≡ protocol_version)
  replied id (err (unattributable text)) s e n h = absurd n
  replied id (err (attributable i response)) s e n h =
      go (consume c o st w rate json limits observed_uid peer_uid s).0 _ h
    where
      go :
          (granted : Bool) (f : Failure)
          → ◌≡◌ {A = Reaction c o st w rate json limits observed_uid peer_uid}
              (if◌then◌else◌ {A = Reaction c o st w rate json limits observed_uid peer_uid} granted
                (reply (new_envelope i response))
                (close f))
              (reply e)
          → (e.correlation_id ≡ id) × (e.version ≡ protocol_version)
      go true f h = told id (new_envelope i response) e h n
      go false f h = cc
  replied id (ok (i, request)) s e n h =
      go (consume c o st w rate json limits observed_uid peer_uid s) h
    where
      go :
          (p : Bool × S)
          → ◌≡◌ {A = Reaction c o st w rate json limits observed_uid peer_uid}
              (limited c o st w rate json limits observed_uid peer_uid p i request).0
              (reply e)
          → (e.correlation_id ≡ id) × (e.version ≡ protocol_version)
      go (true, t) h = told id _ e h n
      go (false, t) h = told id _ e h n

  reply_named :
      (bytes : Bytes) (s : S) (e : Envelope Response)
      → (react c o st w rate json limits observed_uid peer_uid bytes s).0 ≡ reply e
      → (id_of json (frame bytes) ≡ some e.correlation_id) × (e.version ≡ protocol_version)
  unfolding react
  reply_named bytes s e h = elim (parse_cases json bytes) [
    | inl (id, known, n) ↦
        (let (i, v) = replied id (parse_envelope json bytes) s e n h in (rw (known, i), v))
    | inr (t, nameless) ↦ cc (rw nameless at h)
  ]

  -- Every reply is to a frame whose correlation id can be read, and carries that id: the ids of the
  -- replies are those of the first frames of the connection, one for each and in their order, all
  -- with the daemon's protocol version. So no frame is skipped or answered twice before the
  -- connection ends.
  pub replies-InOrder :
      (incoming : List Incoming) (delivered : List Delivery) (s : S)
      → InOrder json incoming
          (handle_connection c o st w rate json limits observed_uid peer_uid incoming delivered
            s).replies
  unfolding handle_connection
  replies-InOrder [] delivered s = none_yet json []
  replies-InOrder (idle ∷ later) delivered s = none_yet json (idle ∷ later)
  replies-InOrder (closed ∷ later) delivered s = none_yet json (closed ∷ later)
  replies-InOrder (too_large n ∷ later) delivered s = none_yet json (too_large n ∷ later)
  replies-InOrder (broken f ∷ later) delivered s = none_yet json (broken f ∷ later)
  replies-InOrder (frame bytes ∷ later) delivered s =
      go (react c o st w rate json limits observed_uid peer_uid bytes s).0 refl delivered
        (replies-InOrder later)
    where
      t : S
      t = (react c o st w rate json limits observed_uid peer_uid bytes s).1

      after : Reaction c o st w rate json limits observed_uid peer_uid → List Delivery → Log S
      after x delivered = elim x [
        | close f ↦ ended c o st w rate json limits observed_uid peer_uid (failed f) t
        | reply e ↦ (elim delivered [
          | [] ↦ before c o st w rate json limits observed_uid peer_uid e (run later [] t)
          | sent ∷ rest ↦
              before c o st w rate json limits observed_uid peer_uid e (run later rest t)
          | overdue ∷ rest ↦
              ended c o st w rate json limits observed_uid peer_uid
                (failed (stalled c o st w rate json limits observed_uid peer_uid)) t
          | unsent f ∷ rest ↦ ended c o st w rate json limits observed_uid peer_uid (failed f) t
        ])
      ]

      go :
          (x : Reaction c o st w rate json limits observed_uid peer_uid)
          → (react c o st w rate json limits observed_uid peer_uid bytes s).0 ≡ x
          → (delivered : List Delivery)
          → ((d : List Delivery) (u : S) → InOrder json later (run later d u).replies)
          → InOrder json (frame bytes ∷ later) (after x delivered).replies
      go (close f) h d ih = none_yet json (frame bytes ∷ later)
      go (reply e) h [] ih =
          let (i, v) = reply_named bytes s e h in one_more json bytes later e _ i v (ih [] t)
      go (reply e) h (sent ∷ d) ih =
          let (i, v) = reply_named bytes s e h in one_more json bytes later e _ i v (ih d t)
      go (reply e) h (overdue ∷ d) ih = none_yet json (frame bytes ∷ later)
      go (reply e) h (unsent f ∷ d) ih = none_yet json (frame bytes ∷ later)
