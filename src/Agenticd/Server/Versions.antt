-- ===== src/Agenticd/Server/Versions.antt =====
-- Which envelopes are accepted, and what a peer is told of the others.
use git_agentic.Common.{
  ℕ, ◌<◌, ◌≡◌, Option, none, some, Result, ok, err, and_then, map_err, ok_or, nat_eq, ◌↔◌, arith,
  and_then-eq-ok, map_err-eq-ok,
}
use git_agentic.Common.Text.{Bytes, Text}
use git_agentic.Proto.Messages.{Request, RequestV0, request_of_v0, protocol_version}
use git_agentic.Agenticd.Server.Envelopes.{
  VersionField, EnvelopeJson, EnvelopeParseError, correlation_id_of, decode_version, decode_payload,
  parse_envelope, absent, number, string, boolean, array, object, null,
}

-- What the field of an accepted envelope says
abbrev pub Says : VersionField → ℕ → Type 0
Says absent n = n ≡ 0
Says (number (some m) shown) n = (m ≡ n) × (n < 65536)
Says _ n = ⊥

module _ (json : EnvelopeJson) where
  -- How the request of an accepted envelope is read
  pub data IsRequest (bytes : Bytes) (request : Request) : Type 0 where
    old :
        (r : RequestV0)
        → Says (json.version bytes) 0
        → json.payload_v0 bytes ≡ ok r
        → request ≡ request_of_v0 r
        → IsRequest bytes request
    current :
        Says (json.version bytes) protocol_version
        → json.payload bytes ≡ ok request
        → IsRequest bytes request

  version-Says : (id : Text) (f : VersionField) (n : ℕ) → decode_version id f ≡ ok n → Says f n
  unfolding decode_version
  version-Says id absent n e = ground arith
  version-Says id (number none shown) n e = cc
  version-Says id (number (some m) shown) n e = ground arith
  version-Says id string n e = cc
  version-Says id boolean n e = cc
  version-Says id array n e = cc
  version-Says id object n e = cc
  version-Says id null n e = cc

  Says-version : (id : Text) (f : VersionField) (n : ℕ) → Says f n → decode_version id f ≡ ok n
  unfolding decode_version
  Says-version id absent n e = ground arith
  Says-version id (number none shown) n e = absurd e
  Says-version id (number (some m) shown) n e = ground arith
  Says-version id string n e = absurd e
  Says-version id boolean n e = absurd e
  Says-version id array n e = absurd e
  Says-version id object n e = absurd e
  Says-version id null n e = absurd e

  payload_read :
      (id : Text) (bytes : Bytes) (n : ℕ) (r : Request)
      → Says (json.version bytes) n
      → decode_payload json id n bytes ≡ ok r
      → IsRequest bytes r
  unfolding decode_payload
  payload_read id bytes ℕ.zero r v e =
      let (r0, read, same) = and_then-eq-ok _ (λ r. ok (request_of_v0 r)) e in
      old r0 v (map_err-eq-ok _ (json.payload_v0 bytes) read) (cc same)
  payload_read id bytes (ℕ.suc ℕ.zero) r v e = current v (map_err-eq-ok _ (json.payload bytes) e)
  payload_read id bytes (ℕ.suc (ℕ.suc n)) r v e = ground arith

  read_payload_of :
      (id : Text) (bytes : Bytes) (r : Request)
      → IsRequest bytes r
      → (n : ℕ) × Says (json.version bytes) n × (decode_payload json id n bytes ≡ ok r)
  unfolding decode_payload
  read_payload_of id bytes r (old r0 v e same) = (0, v, rw (e, same))
  read_payload_of id bytes r (current v e) = (1, v, rw e)

  -- An envelope is accepted exactly if it has a correlation id, and its version field is absent or 0
  -- and it reads as a request of the old protocol, which is then translated, or its version field is
  -- 1 and it reads as a request. So no version is read modulo anything, and a version that is no
  -- integer is never taken for an old client.
  pub parse_envelope_iff :
      (bytes : Bytes) (id : Text) (request : Request)
      → (parse_envelope json bytes ≡ ok (id, request))
        ↔ ((json.correlation_id bytes ≡ ok (some id)) × IsRequest bytes request)
  unfolding parse_envelope
  parse_envelope_iff bytes id request = (accepted, accepts)
    where
      has_id :
          (f : Text → EnvelopeParseError) (u : EnvelopeParseError) (r : Result Text (Option Text))
          {i : Text}
          → and_then (map_err f r) (λ o. ok_or o u) ≡ ok i
          → r ≡ ok (some i)
      has_id f u (ok (some j)) e = cc
      has_id f u (ok none) e = cc
      has_id f u (err t) e = cc

      same :
          {i : Text} {r : Request}
          → ◌≡◌ {A = Result EnvelopeParseError (Text × Request)} (ok (i, r)) (ok (id, request))
          → (i ≡ id) × (r ≡ request)
      same e = ground arith

      accepted :
          parse_envelope json bytes ≡ ok (id, request)
          → (json.correlation_id bytes ≡ ok (some id)) × IsRequest bytes request
      accepted e =
          let (i, found, rest) = and_then-eq-ok (correlation_id_of json bytes) _ e in
          let (n, version, later) = and_then-eq-ok (decode_version i (json.version bytes)) _ rest in
          let (r, read, last) =
            and_then-eq-ok (decode_payload json i n bytes) (λ r. ok (i, r)) later in
          let (same_id, same_request) = same last in
          (
            has_id _ _ (json.correlation_id bytes) (rw same_id at found),
            rw (← same_request)
                (payload_read i bytes n r (version-Says i (json.version bytes) n version) read),
          )

      accepts :
          (json.correlation_id bytes ≡ ok (some id)) × IsRequest bytes request
          → parse_envelope json bytes ≡ ok (id, request)
      accepts (i, r) =
          let (n, v, p) = read_payload_of id bytes request r in
          rw (i, Says-version id (json.version bytes) n v, p)
