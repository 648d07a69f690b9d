-- ===== src/Agenticd/Server/Envelopes.antt =====
-- crates/agenticd/src/server.rs: `parse_envelope_with_v0_shim`.
use git_agentic.Common.{
  ℕ, Option, none, some, ◌++◌, Result, ok, err, and_then, map_err, ok_or, ltb, ◌==◌, nat_eq,
  if◌then◌else◌,
}
use git_agentic.Common.Decimal.{to_decimal}
use git_agentic.Common.Text.{Bytes, Text, codes}
use git_agentic.Proto.Messages.{
  Request, RequestV0, Response, reply_protocol, request_of_v0, protocol_version,
}

-- The field `protocol_version` of a JSON object: a number has a value as a `u64` or none, and the
-- text that it is printed as.
pub data VersionField : Type 0 where
  absent : VersionField
  number : (as_u64 : Option ℕ) (shown : Text) → VersionField
  string boolean array object null : VersionField

-- serde_json at an envelope: its fields first, then the whole at one of the two request types, with
-- the error's text where it fails.
pub record EnvelopeJson : Type 0 where
  pub correlation_id : Bytes → Result Text (Option Text)
  pub version : Bytes → VersionField
  pub payload_v0 : Bytes → Result Text RequestV0
  pub payload : Bytes → Result Text Request

pub data EnvelopeParseError : Type 0 where
  attributable : (correlation_id : Text) (response : Response) → EnvelopeParseError
  unattributable : Text → EnvelopeParseError

abbrev pub u16_max : ℕ
u16_max = 65535

abbrev pub malformed_version : Text → Text → EnvelopeParseError
malformed_version id text =
    attributable id (reply_protocol (codes "malformed_protocol_version") text)

abbrev pub not_integer : Text → Text → EnvelopeParseError
not_integer id kind =
    malformed_version id (codes "protocol_version must be a JSON integer; got " ++ kind)

unfoldable pub decode_version : Text → VersionField → Result EnvelopeParseError ℕ
decode_version id absent = ok 0
decode_version id (number none shown) =
    err (malformed_version id (codes "protocol_version is not a non-negative integer: " ++ shown))
decode_version id (number (some n) shown) =
    if ltb u16_max n
    then err (
        malformed_version id (
          codes "protocol_version "
          ++ (to_decimal n ++ codes " exceeds the u16 wire range; max is 65535")))
    else ok n
decode_version id string = err (not_integer id (codes "string"))
decode_version id boolean = err (not_integer id (codes "boolean"))
decode_version id array = err (not_integer id (codes "array"))
decode_version id object = err (not_integer id (codes "object"))
decode_version id null = err (not_integer id (codes "null"))

abbrev pub mismatch : Text → ℕ → EnvelopeParseError
mismatch id version = attributable id (
    reply_protocol (codes "version_mismatch") (
      codes "client protocol_version "
      ++ (to_decimal version
          ++ (codes " > daemon-supported "
              ++ (to_decimal protocol_version
                  ++ codes "; upgrade the daemon or downgrade the client")))))

module _ (json : EnvelopeJson) where
  abbrev pub correlation_id_of : Bytes → Result EnvelopeParseError Text
  correlation_id_of bytes =
      and_then
        (map_err (λ e. unattributable (codes "envelope JSON parse failed: " ++ e))
          (json.correlation_id bytes))
        λ id. ok_or id (unattributable (codes "envelope missing correlation_id"))

  -- The second pass, at the version that was found
  unfoldable pub decode_payload : Text → ℕ → Bytes → Result EnvelopeParseError Request
  decode_payload id version bytes =
      if ltb protocol_version version
      then err (mismatch id version)
      else if version == 0
      then and_then
          (map_err
            (λ e. attributable id (
              reply_protocol (codes "malformed_v0_envelope")
                (codes "v0 envelope failed to deserialise: " ++ e)))
            (json.payload_v0 bytes))
          (λ r. ok (request_of_v0 r))
      else map_err
          (λ e. attributable id (
            reply_protocol (codes "malformed_envelope") (
              codes "v"
              ++ (to_decimal version ++ (codes " envelope failed to deserialise: " ++ e)))))
          (json.payload bytes)

  unfoldable pub parse_envelope : Bytes → Result EnvelopeParseError (Text × Request)
  unfolding decode_version decode_payload
  parse_envelope bytes = and_then (correlation_id_of bytes) λ id.
      and_then (decode_version id (json.version bytes))
        λ version. and_then (decode_payload id version bytes) λ request. ok (id, request)
