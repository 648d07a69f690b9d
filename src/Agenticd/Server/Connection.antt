-- ===== src/Agenticd/Server/Connection.antt =====
-- crates/agenticd/src/server.rs: `handle_connection`, the loop that reads, dispatches and replies.
-- The socket is a script: what each read brings, and whether each reply is delivered in time.
use git_agentic.Common.{
  ℕ, ◌/◌, Bool, true, false, Option, List, [], ◌∷◌, ◌++◌, Result, ok, err, if◌then◌else◌,
}
use git_agentic.Common.Decimal.{to_decimal}
use git_agentic.Common.Text.{Bytes, Text, codes}
use git_agentic.Proto.Messages.{Request, Response, Envelope, new_envelope, reply_concurrency}
use git_agentic.Agenticd.Failure.{Failure, anyhow}
use git_agentic.Agenticd.Daemon.{Outside, DaemonState}
use git_agentic.Agenticd.Limits.{Clock, RateLimiter, try_consume, LimitsConfig}
use git_agentic.Agenticd.WireError.{map_anyhow_to_response_error}
use git_agentic.Agenticd.Server.Dispatch.{Queue, dispatch}
use git_agentic.Agenticd.Server.Envelopes.{
  EnvelopeJson, EnvelopeParseError, attributable, unattributable, parse_envelope,
}

-- What the wait for the next frame brings: `read_frame_bytes` under the read-idle deadline
pub data Incoming : Type 0 where
  idle closed : Incoming
  too_large : ℕ → Incoming
  broken : Failure → Incoming
  frame : Bytes → Incoming

-- How the write of a reply ends: within its deadline, past it, or with an error, as of a reply that
-- is too large for a frame
pub data Delivery : Type 0 where
  sent overdue : Delivery
  unsent : Failure → Delivery

-- How a connection ends
pub data Ending : Type 0 where
  done : Ending
  failed : Failure → Ending

-- The limiter of the daemon as a part of its state, and the clock
pub record Rate (c : Clock) (S : Type 0) : Type 0 where
  pub limiter : S → RateLimiter c
  pub set_limiter : RateLimiter c → S → S
  pub instant : S → c.Instant

pub record Log (S : Type 0) : Type 0 where
  pub replies : List (Envelope Response)
  pub ending : Ending
  pub final : S

abbrev pub rate_exhausted : Response
rate_exhausted =
    reply_concurrency (codes "rate_budget_exhausted")
      (codes "per-UID request rate budget exhausted; retry shortly")

module _ (c : Clock) {S : Type 0} (o : Outside S) (st : DaemonState S) (w : Queue S)
    (rate : Rate c S) (json : EnvelopeJson) (limits : LimitsConfig) (observed_uid : ℕ)
    (peer_uid : Option ℕ) where
  -- `state.rate.try_consume(observed_uid, Instant::now())`
  unfoldable pub consume : S → Bool × S
  consume s =
      let (granted, r) = try_consume c observed_uid (rate.instant s) (rate.limiter s) in
      (granted, rate.set_limiter r s)

  abbrev pub seconds_of : ℕ → Text
  seconds_of n = to_decimal (n / 1000000000)

  -- `write_reply`: a reply that is not delivered ends the connection.
  abbrev pub stalled : Failure
  stalled = anyhow (
      codes "response write stalled beyond "
      ++ (seconds_of limits.write_idle ++ codes "s write-idle deadline"))

  -- The reply to one frame, or the end of the connection
  pub data Reaction : Type 0 where
    reply : Envelope Response → Reaction
    close : Failure → Reaction

  abbrev pub or_exhausted : Bool × S → Envelope Response → Failure → Reaction × S
  or_exhausted (granted, s) e f = (if granted then reply e else close f, s)

  -- `dispatch`, with its error as a reply
  abbrev pub answer : Text → Request → S → Reaction × S
  answer id request s =
      let r = dispatch o st w request peer_uid s in
      (
        reply (
            new_envelope id
              (elim r.0 [ ok response ↦ response | err e ↦ map_anyhow_to_response_error o.fmt e ])),
        r.1,
      )

  abbrev pub limited : Bool × S → Text → Request → Reaction × S
  limited (true, s) id request = answer id request s
  limited (false, s) id request = (reply (new_envelope id rate_exhausted), s)

  abbrev pub react_to : Result EnvelopeParseError (Text × Request) → S → Reaction × S
  react_to (err (attributable id response)) s =
      or_exhausted (consume s) (new_envelope id response)
        (anyhow (codes "rate budget exhausted by malformed envelopes; closing"))
  react_to (err (unattributable text)) s =
      (close (anyhow (codes "malformed envelope: " ++ text)), s)
  react_to (ok (id, request)) s = limited (consume s) id request

  unfoldable pub react : Bytes → S → Reaction × S
  unfolding consume
  react bytes s = react_to (parse_envelope json bytes) s

  abbrev pub ended : Ending → S → Log S
  ended e s = record { replies = []; ending = e; final = s }

  abbrev pub before : Envelope Response → Log S → Log S
  before e l = record l { replies = e ∷ l.replies }

  abbrev pub idle_error : Failure
  idle_error = anyhow (
      codes "connection idle beyond "
      ++ (seconds_of limits.read_idle ++ codes "s read deadline; closing"))

  abbrev pub too_large_error : ℕ → Failure
  too_large_error n =
      anyhow (codes "inbound frame exceeds MAX_FRAME_BYTES (" ++ (to_decimal n ++ codes " bytes)"))

  -- A peer that sends no more runs into the deadline.
  unfoldable pub handle_connection : List Incoming → List Delivery → S → Log S
  unfolding react
  handle_connection [] delivered s = ended (failed idle_error) s
  handle_connection (idle ∷ later) delivered s = ended (failed idle_error) s
  handle_connection (closed ∷ later) delivered s = ended done s
  handle_connection (too_large n ∷ later) delivered s = ended (failed (too_large_error n)) s
  handle_connection (broken f ∷ later) delivered s = ended (failed f) s
  handle_connection (frame bytes ∷ later) delivered s = elim (react bytes s).0 [
    | close f ↦ ended (failed f) (react bytes s).1
    | reply e ↦ (elim delivered [
      | [] ↦ before e (handle_connection later [] (react bytes s).1)
      | sent ∷ rest ↦ before e (handle_connection later rest (react bytes s).1)
      | overdue ∷ rest ↦ ended (failed stalled) (react bytes s).1
      | unsent f ∷ rest ↦ ended (failed f) (react bytes s).1
    ])
  ]
