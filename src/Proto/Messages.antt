-- ===== src/Proto/Messages.antt =====
-- crates/agentic-proto/src/lib.rs: the envelope, the requests of both protocol versions and the
-- replies.
use git_agentic.Common.{ℕ, Bool, true, false, Option, none, List}
use git_agentic.Common.SortedMap.{SortedMap}
use git_agentic.Common.Text.{Bytes, Text}

-- `PROTOCOL_VERSION`
abbrev pub protocol_version : ℕ
protocol_version = 1

pub record Envelope (T : Type 0) : Type 0 where
  pub correlation_id : Text
  pub version : ℕ
  pub payload : T

-- `Envelope::new`
abbrev pub new_envelope : {T : Type 0} → Text → T → Envelope T
new_envelope correlation_id payload = record {
  correlation_id = correlation_id;
  version = protocol_version;
  payload = payload;
}

pub record CommitInput : Type 0 where
  pub message : Text
  pub author : Option Text
  pub code_sha : Option Text
  pub branch : Option Text
  pub prompts : SortedMap Bytes
  pub mcp_servers : List Text
  pub model : Option Text
  pub no_memory : Bool

pub record CommitInputV0 : Type 0 where
  pub message : Text
  pub author : Option Text
  pub code_sha : Option Text
  pub branch : Option Text
  pub prompts : SortedMap Text
  pub mcp_servers : List Text
  pub model : Option Text
  pub no_memory : Bool

pub data Request : Type 0 where
  ping : Request
  commit : CommitInput → Request
  log : (limit : ℕ) → Request
  diff : (from to : Text) → Request
  rollback :
      (target : Text) (dry_run accept_data_loss : Bool) (approval_token : Option Text) → Request
  resolve_ref : (name : Text) → Request
  read_object : (hash : Text) → Request

pub data RequestV0 : Type 0 where
  ping : RequestV0
  commit : CommitInputV0 → RequestV0
  log : (limit : ℕ) → RequestV0
  diff : (from to : Text) → RequestV0
  rollback : (target : Text) (dry_run accept_data_loss : Bool) → RequestV0
  resolve_ref : (name : Text) → RequestV0
  read_object : (hash : Text) → RequestV0

pub data ErrorClass : Type 0 where
  protocol validation not_found storage memory concurrency internal unknown : ErrorClass

pub record CommitOutput : Type 0 where
  pub commit_hash : Text
  pub branch : Text

pub record LogEntry : Type 0 where
  pub hash : Text
  pub message : Text
  pub author : Text
  pub timestamp : Text

pub record DiffOutput : Type 0 where
  pub from : Text
  pub to : Text
  pub prompts : List Text
  pub tools : List Text
  pub model_changed : Bool
  pub memory_summary : Text
  pub schema_summary : Text

pub record RollbackOutput : Type 0 where
  pub planned_steps : List Text
  pub executed : Bool
  pub new_head_hash : Option Text

pub data Response : Type 0 where
  pong : Response
  commit : CommitOutput → Response
  log : (entries : List LogEntry) → Response
  diff : DiffOutput → Response
  rollback : RollbackOutput → Response
  resolve_ref : (hash : Text) → Response
  object_data : (hash object_kind : Text) (bytes : Bytes) → Response
  error : (class : ErrorClass) (code message : Text) (retryable : Bool) → Response

-- The constructors of `Response` that fix the class of an error, and most of them its retryability
abbrev pub reply_protocol : Text → Text → Response
reply_protocol code message = Response.error ErrorClass.protocol code message false

abbrev pub reply_validation : Text → Text → Response
reply_validation code message = Response.error ErrorClass.validation code message false

abbrev pub reply_not_found : Text → Text → Response
reply_not_found code message = Response.error ErrorClass.not_found code message false

abbrev pub reply_concurrency : Text → Text → Response
reply_concurrency code message = Response.error ErrorClass.concurrency code message true

-- `From<CommitInputV0>`: a prompt's text becomes its bytes.
unfoldable pub commit_input_of_v0 : CommitInputV0 → CommitInput
commit_input_of_v0 v0 = record {
  message = v0.message;
  author = v0.author;
  code_sha = v0.code_sha;
  branch = v0.branch;
  prompts = v0.prompts;
  mcp_servers = v0.mcp_servers;
  model = v0.model;
  no_memory = v0.no_memory;
}

-- `From<RequestV0>`: the old form of a rollback has no token.
unfoldable pub request_of_v0 : RequestV0 → Request
unfolding commit_input_of_v0
request_of_v0 RequestV0.ping = Request.ping
request_of_v0 (RequestV0.commit input) = Request.commit (commit_input_of_v0 input)
request_of_v0 (RequestV0.log limit) = Request.log limit
request_of_v0 (RequestV0.diff from to) = Request.diff from to
request_of_v0 (RequestV0.rollback target dry_run accept_data_loss) =
    Request.rollback target dry_run accept_data_loss none
request_of_v0 (RequestV0.resolve_ref name) = Request.resolve_ref name
request_of_v0 (RequestV0.read_object hash) = Request.read_object hash
