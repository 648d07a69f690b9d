-- ===== src/Agenticd/Server/Named.antt =====
-- Whatever a parse of a frame returns names the correlation id that can be read of it.
use git_agentic.Common.{
  ℕ, ◌≡◌, refl, Bool, true, false, Option, none, some, ◌++◌, Result, ok, err, and_then, map_err,
  if◌then◌else◌, ltb, nat_eq, ◌⊎◌, inl, inr, arith,
}
use git_agentic.Common.Text.{Bytes, Text, codes}
use git_agentic.Proto.Messages.{Request, Response, request_of_v0}
use git_agentic.Agenticd.Server.Envelopes.{
  EnvelopeJson, EnvelopeParseError, attributable, unattributable, parse_envelope, correlation_id_of,
  decode_version, decode_payload, VersionField, absent, number, string, boolean, array, object,
  null, u16_max, malformed_version,
}
use git_agentic.Agenticd.Server.Connection.{Incoming, frame}

module _ (json : EnvelopeJson) where
  -- The correlation id that can be read of a frame
  abbrev pub id_of_result : Result EnvelopeParseError Text → Option Text
  id_of_result (ok id) = some id
  id_of_result (err e) = none

  abbrev pub id_of : Incoming → Option Text
  id_of (frame bytes) = id_of_result (correlation_id_of json bytes)
  id_of _ = none

  -- A result that is, or says of, the frame with an id
  abbrev Of {ℓ} : {A : Type ℓ} → Text → Result EnvelopeParseError A → Type 0
  Of id (ok a) = Unit {0}
  Of id (err (attributable i response)) = i ≡ id
  Of id (err (unattributable text)) = ⊥

  abbrev pub Named : Text → Result EnvelopeParseError (Text × Request) → Type 0
  Named id (ok (i, request)) = i ≡ id
  Named id (err (attributable i response)) = i ≡ id
  Named id (err (unattributable text)) = ⊥

  Named-and_then :
      {A : Type 0} (id : Text) (m : Result EnvelopeParseError A)
      (f : A → Result EnvelopeParseError (Text × Request))
      → Of id m
      → ((a : A) → Named id (f a))
      → Named id (and_then m f)
  Named-and_then id (ok a) f h k = k a
  Named-and_then id (err (attributable i response)) f h k = h
  Named-and_then id (err (unattributable text)) f h k = absurd h

  version-Of : (id : Text) (f : VersionField) → Of id (decode_version id f)
  unfolding decode_version
  version-Of id absent = tt
  version-Of id (number none shown) = refl
  version-Of id (number (some n) shown) = go (ltb u16_max n) _
    where
      go : (b : Bool) (e : Text) → Of id (if b then err (malformed_version id e) else ok n)
      go true e = refl
      go false e = tt
  version-Of id string = refl
  version-Of id boolean = refl
  version-Of id array = refl
  version-Of id object = refl
  version-Of id null = refl

  map_err-Of :
      {A : Type 0} (id : Text) (f : Text → Response) (r : Result Text A)
      → Of id (map_err (λ e. attributable id (f e)) r)
  map_err-Of id f (ok a) = tt
  map_err-Of id f (err e) = refl

  and_then-Of :
      {A B : Type 0} (id : Text) (r : Result EnvelopeParseError A) (f : A → B)
      → Of id r
      → Of id (and_then r (λ a. ok (f a)))
  and_then-Of id (ok a) f h = tt
  and_then-Of id (err (attributable i response)) f h = h
  and_then-Of id (err (unattributable text)) f h = absurd h

  payload-Of : (id : Text) (n : ℕ) (bytes : Bytes) → Of id (decode_payload json id n bytes)
  unfolding decode_payload
  payload-Of id ℕ.zero bytes =
      and_then-Of id _ request_of_v0 (map_err-Of id _ (json.payload_v0 bytes))
  payload-Of id (ℕ.suc ℕ.zero) bytes = map_err-Of id _ (json.payload bytes)
  payload-Of id (ℕ.suc (ℕ.suc n)) bytes = ground arith

  after_id :
      (bytes : Bytes) (id : Text)
      → Named id (
          and_then
            (decode_version id (json.version bytes))
            λ version. and_then (decode_payload json id version bytes) λ request. ok (id, request))
  after_id bytes id =
      Named-and_then id _ _ (version-Of id (json.version bytes))
        λ n. Named-and_then id _ _ (payload-Of id n bytes) λ request. refl

  -- Either the frame's id is known and the parse names it, or the parse names none.
  pub parse_cases :
      (bytes : Bytes)
      → ((id : Text) × (correlation_id_of json bytes ≡ ok id)
          × Named id (parse_envelope json bytes))
        ⊎ ((t : Text) × (parse_envelope json bytes ≡ err (unattributable t)))
  unfolding parse_envelope
  parse_cases bytes = go (json.correlation_id bytes) refl
    where
      go :
          (r : Result Text (Option Text))
          → json.correlation_id bytes ≡ r
          → ((id : Text) × (correlation_id_of json bytes ≡ ok id)
              × Named id (parse_envelope json bytes))
            ⊎ ((t : Text) × (parse_envelope json bytes ≡ err (unattributable t)))
      go (ok (some id)) e = inl (id, rw e, rw e (after_id bytes id))
      go (ok none) e = inr (codes "envelope missing correlation_id", rw e)
      go (err t) e = inr (codes "envelope JSON parse failed: " ++ t, rw e)
