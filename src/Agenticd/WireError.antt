-- ===== src/Agenticd/WireError.antt =====
-- crates/agenticd/src/wire_error.rs: what class, code and retryability an error has on the wire.
pub mod Contract
use git_agentic.Common.{ℕ, ◌≡◌, Bool, true, false, ◌||◌, ◌&&◌, List, [], ◌∷◌, if◌then◌else◌, String}
use git_agentic.Common.Text.{Text, codes, contains, to_ascii_lowercase}
use git_agentic.Core.Approval.{ApprovalRejection}
use git_agentic.Core.Error.{Error as CoreError}
use git_agentic.Memory.Error.{Error as MemoryError, SqlxError}
use git_agentic.Proto.Messages.{
  ErrorClass, Response, reply_validation, reply_not_found, reply_concurrency,
}
use git_agentic.Agenticd.Failure.{ApprovalError, Root, Failure, Formats, full_text}

-- `(class, code, retryable)`
abbrev pub Triple : Type 0
Triple = ErrorClass × Text × Bool

unfoldable pub classify_core_error : CoreError → Triple
classify_core_error (CoreError.not_found h) =
    (ErrorClass.not_found, codes "object_not_found", false)
classify_core_error (CoreError.integrity_error declared computed) =
    (ErrorClass.storage, codes "object_integrity_failure", false)
classify_core_error (CoreError.secret_detected hits) =
    (ErrorClass.validation, codes "secret_detected", false)
classify_core_error (CoreError.invalid_branch_name name reason) =
    (ErrorClass.validation, codes "invalid_branch_name", false)
classify_core_error (CoreError.io e) = (ErrorClass.storage, codes "io_failure", true)
classify_core_error CoreError.serialize = (ErrorClass.storage, codes "serialization_failure", false)
classify_core_error (CoreError.kind_mismatch expected actual) =
    (ErrorClass.storage, codes "object_kind_mismatch", false)
classify_core_error CoreError.other = (ErrorClass.internal, codes "core_other", false)

abbrev pub mentions : String → Text → Bool
mentions phrase lower = contains (codes phrase) lower

unfoldable pub classify_memory_backend_message : Text → Triple
classify_memory_backend_message msg =
    let lower = to_ascii_lowercase msg in
    if mentions "pgvector extension is not installed" lower
    then (ErrorClass.memory, codes "pgvector_not_installed", false)
    else if mentions "empty identifier" lower || mentions "invalid character in identifier" lower
    then (ErrorClass.validation, codes "invalid_identifier", false)
    else if mentions "called before init" lower
        || mentions "not initialised" lower
        || mentions "not initialized" lower
    then (ErrorClass.memory, codes "backend_not_initialised", false)
    else if mentions "misconfigured" lower || mentions "invalid configuration" lower
    then (ErrorClass.memory, codes "backend_misconfigured", false)
    else if mentions "streamer task has shut down" lower
        || mentions "streamer dropped reply channel" lower
    then (ErrorClass.memory, codes "streamer_dead", false)
    else if mentions "segment row is not a json object" lower
    then (ErrorClass.storage, codes "segment_row_corrupt", false)
    else (ErrorClass.memory, codes "backend_failure", true)

unfoldable pub classify_sqlx_like : SqlxError → Triple
classify_sqlx_like SqlxError.row_not_found = (ErrorClass.not_found, codes "row_not_found", false)
classify_sqlx_like SqlxError.pool_timed_out =
    (ErrorClass.memory, codes "postgres_pool_unavailable", true)
classify_sqlx_like SqlxError.pool_closed =
    (ErrorClass.memory, codes "postgres_pool_unavailable", true)
classify_sqlx_like SqlxError.io = (ErrorClass.memory, codes "postgres_io_failure", true)
classify_sqlx_like SqlxError.database = (ErrorClass.memory, codes "postgres_database", false)
classify_sqlx_like SqlxError.configuration =
    (ErrorClass.memory, codes "postgres_configuration", false)
classify_sqlx_like SqlxError.column_not_found =
    (ErrorClass.memory, codes "postgres_schema_drift", false)
classify_sqlx_like SqlxError.column_index_out_of_bounds =
    (ErrorClass.memory, codes "postgres_schema_drift", false)
classify_sqlx_like SqlxError.column_decode =
    (ErrorClass.memory, codes "postgres_schema_drift", false)
classify_sqlx_like SqlxError.type_not_found =
    (ErrorClass.memory, codes "postgres_schema_drift", false)
classify_sqlx_like SqlxError.decode = (ErrorClass.memory, codes "postgres_schema_drift", false)
classify_sqlx_like SqlxError.unlisted = (ErrorClass.memory, codes "postgres_other", true)

unfoldable pub classify_memory_error : MemoryError → Triple
unfolding classify_memory_backend_message classify_core_error classify_sqlx_like
classify_memory_error (MemoryError.backend msg) = classify_memory_backend_message msg
classify_memory_error (MemoryError.schema_mismatch live target) =
    (ErrorClass.memory, codes "schema_mismatch", false)
classify_memory_error (MemoryError.missing_reverse_migration name) =
    (ErrorClass.memory, codes "missing_reverse_migration", false)
classify_memory_error (MemoryError.core e) = classify_core_error e
classify_memory_error (MemoryError.sqlx e) = classify_sqlx_like e
classify_memory_error MemoryError.other = (ErrorClass.internal, codes "memory_other", false)
classify_memory_error MemoryError.streamer_shutdown =
    (ErrorClass.memory, codes "streamer_dead", false)

unfoldable pub approval_code : ApprovalError → Text
approval_code ApprovalError.key_not_configured = codes "approval_key_not_configured"
approval_code ApprovalError.no_peer_uid = codes "approval_no_peer_uid"
approval_code ApprovalError.token_required = codes "approval_required"
approval_code (ApprovalError.rejected ApprovalRejection.malformed) =
    codes "approval_token_malformed"
approval_code (ApprovalError.rejected (ApprovalRejection.expired ttl)) =
    codes "approval_token_expired"
approval_code (ApprovalError.rejected ApprovalRejection.invalid_signature) =
    codes "approval_token_invalid_signature"

-- An error with no type that is known: its full text is searched for what the code writes.
unfoldable pub classify_text : Text → Response
classify_text text =
    let lower = to_ascii_lowercase text in
    if mentions "daemon is shutting down" lower
    then reply_concurrency (codes "daemon_shutting_down") text
    else if mentions "invalid hash" lower
    then reply_validation (codes "invalid_hash") text
    else if mentions "ref not found" lower || mentions "commit not found" lower
    then reply_not_found (codes "ref_not_found") text
    else if mentions "scanner" lower && mentions "rejected" lower
    then reply_validation (codes "secret_detected") text
    else Response.error ErrorClass.internal (codes "unclassified") text false

abbrev pub reply_of : Triple → Text → Response
reply_of (class, code, retryable) text = Response.error class code text retryable

unfoldable pub classify_root : Root → Text → Response
unfolding classify_memory_error classify_core_error approval_code classify_text
classify_root (Root.approval e) text = reply_validation (approval_code e) text
classify_root (Root.memory e) text = reply_of (classify_memory_error e) text
classify_root (Root.core e) text = reply_of (classify_core_error e) text
classify_root (Root.migrate e) text = classify_text text
classify_root (Root.manifest e) text = classify_text text
classify_root (Root.io e) text = classify_text text
classify_root Root.utf8 text = classify_text text
classify_root (Root.message m) text = classify_text text

unfoldable pub map_anyhow_to_response_error : Formats → Failure → Response
unfolding classify_root
map_anyhow_to_response_error fmt f = classify_root f.root (full_text fmt f)
