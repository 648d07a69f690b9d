-- ===== src/Agenticd/WireError/Contract.antt =====
-- What each class of error promises of a retry (`ErrorClass` of crates/agentic-proto/src/lib.rs),
-- and that the classification keeps it.
use git_agentic.Common.{
  ◌≡◌, refl, Bool, true, false, not, ◌||◌, any, List, [], ◌∷◌, String, if◌then◌else◌,
}
use git_agentic.Common.Text.{Text, codes, contains, to_ascii_lowercase}
use git_agentic.Core.Error.{Error as CoreError}
use git_agentic.Memory.Error.{Error as MemoryError, SqlxError}
use git_agentic.Proto.Messages.{ErrorClass, Response}
use git_agentic.Agenticd.Failure.{Root, Failure, Formats, full_text}
use git_agentic.Agenticd.WireError.{
  Triple, classify_core_error, classify_memory_backend_message, classify_sqlx_like,
  classify_memory_error, classify_text, classify_root, map_anyhow_to_response_error,
}

-- The shapes of a backend's message that are documented as permanent
abbrev pub permanent_phrases : List String
permanent_phrases =
    "pgvector extension is not installed" ∷ "empty identifier" ∷ "invalid character in identifier"
    ∷ "called before init" ∷ "not initialised" ∷ "not initialized" ∷ "misconfigured"
    ∷ "invalid configuration" ∷ "streamer task has shut down" ∷ "streamer dropped reply channel"
    ∷ "segment row is not a json object" ∷ []

-- An error of the objects that no retry mends: the stored bytes are not what they must be.
abbrev pub is_corrupt : CoreError → Bool
is_corrupt (CoreError.integrity_error declared computed) = true
is_corrupt (CoreError.kind_mismatch expected actual) = true
is_corrupt CoreError.serialize = true
is_corrupt (CoreError.not_found h) = false
is_corrupt (CoreError.secret_detected hits) = false
is_corrupt (CoreError.invalid_branch_name name reason) = false
is_corrupt (CoreError.io e) = false
is_corrupt CoreError.other = false

-- An error of the database that may pass: the pool, the connection, or one that is not known
abbrev pub may_pass : SqlxError → Bool
may_pass SqlxError.pool_timed_out = true
may_pass SqlxError.pool_closed = true
may_pass SqlxError.io = true
may_pass SqlxError.unlisted = true
may_pass SqlxError.row_not_found = false
may_pass SqlxError.database = false
may_pass SqlxError.configuration = false
may_pass SqlxError.column_not_found = false
may_pass SqlxError.column_index_out_of_bounds = false
may_pass SqlxError.column_decode = false
may_pass SqlxError.type_not_found = false
may_pass SqlxError.decode = false

abbrev pub is_permanent : MemoryError → Bool
is_permanent (MemoryError.backend msg) =
    any (λ p. contains (codes p) (to_ascii_lowercase msg)) permanent_phrases
is_permanent (MemoryError.schema_mismatch live target) = true
is_permanent (MemoryError.missing_reverse_migration name) = true
is_permanent MemoryError.streamer_shutdown = true
is_permanent (MemoryError.core e) = is_corrupt e
is_permanent (MemoryError.sqlx e) = not (may_pass e)
is_permanent MemoryError.other = true

-- Whether the error at the root lasts, of those that are classed as storage or as memory
abbrev pub lasts : Root → Bool
lasts (Root.core e) = is_corrupt e
lasts (Root.memory e) = is_permanent e
lasts _ = true

-- The documented promise of a class, for an error that lasts or not
abbrev pub Promise : Bool → ErrorClass → Bool → Type 0
Promise lasting ErrorClass.protocol retryable = retryable ≡ false
Promise lasting ErrorClass.validation retryable = retryable ≡ false
Promise lasting ErrorClass.not_found retryable = retryable ≡ false
Promise lasting ErrorClass.storage retryable = retryable ≡ not lasting
Promise lasting ErrorClass.memory retryable = retryable ≡ not lasting
Promise lasting ErrorClass.concurrency retryable = retryable ≡ true
Promise lasting ErrorClass.internal retryable = retryable ≡ false
Promise lasting ErrorClass.unknown retryable = ⊥

-- A reply is an error with the given message, and its class keeps its promise.
abbrev pub KeepsPromise : Bool → Text → Response → Type 0
KeepsPromise lasting text (Response.error class code message retryable) =
    (message ≡ text) × Promise lasting class retryable
KeepsPromise lasting text _ = ⊥

record Fit (lasting : Bool) (t : Triple) : Type 0 where
  at : Promise lasting t.0 t.2

record Kept (text : Text) (r : Response) : Type 0 where
  at : KeepsPromise true text r

core-Fit : (e : CoreError) → Fit (is_corrupt e) (classify_core_error e)
unfolding classify_core_error
core-Fit (CoreError.not_found h) = record { at = refl }
core-Fit (CoreError.integrity_error a b) = record { at = refl }
core-Fit (CoreError.secret_detected hits) = record { at = refl }
core-Fit (CoreError.invalid_branch_name n r) = record { at = refl }
core-Fit (CoreError.io e) = record { at = refl }
core-Fit (CoreError.serialize) = record { at = refl }
core-Fit (CoreError.kind_mismatch a b) = record { at = refl }
core-Fit (CoreError.other) = record { at = refl }

sqlx-Fit : (e : SqlxError) → Fit (not (may_pass e)) (classify_sqlx_like e)
unfolding classify_sqlx_like
sqlx-Fit SqlxError.row_not_found = record { at = refl }
sqlx-Fit SqlxError.pool_timed_out = record { at = refl }
sqlx-Fit SqlxError.pool_closed = record { at = refl }
sqlx-Fit SqlxError.io = record { at = refl }
sqlx-Fit SqlxError.database = record { at = refl }
sqlx-Fit SqlxError.configuration = record { at = refl }
sqlx-Fit SqlxError.column_not_found = record { at = refl }
sqlx-Fit SqlxError.column_index_out_of_bounds = record { at = refl }
sqlx-Fit SqlxError.column_decode = record { at = refl }
sqlx-Fit SqlxError.type_not_found = record { at = refl }
sqlx-Fit SqlxError.decode = record { at = refl }
sqlx-Fit SqlxError.unlisted = record { at = refl }

backend-Fit :
    (msg : Text)
    → Fit (is_permanent (MemoryError.backend msg)) (classify_memory_backend_message msg)
unfolding classify_memory_backend_message any
backend-Fit msg =
    go (has "pgvector extension is not installed") (has "empty identifier")
      (has "invalid character in identifier") (has "called before init") (has "not initialised")
      (has "not initialized") (has "misconfigured") (has "invalid configuration")
      (has "streamer task has shut down") (has "streamer dropped reply channel")
      (has "segment row is not a json object")
  where
    has : String → Bool
    has phrase = contains (codes phrase) (to_ascii_lowercase msg)

    go :
        (a b c d e f g h i j k : Bool)
        → Fit (any (λ x. x) (a ∷ b ∷ c ∷ d ∷ e ∷ f ∷ g ∷ h ∷ i ∷ j ∷ k ∷ [])) (
            if a
            then (ErrorClass.memory, codes "pgvector_not_installed", false)
            else if b || c
            then (ErrorClass.validation, codes "invalid_identifier", false)
            else if d || e || f
            then (ErrorClass.memory, codes "backend_not_initialised", false)
            else if g || h
            then (ErrorClass.memory, codes "backend_misconfigured", false)
            else if i || j
            then (ErrorClass.memory, codes "streamer_dead", false)
            else if k
            then (ErrorClass.storage, codes "segment_row_corrupt", false)
            else (ErrorClass.memory, codes "backend_failure", true))
    go true b c d e f g h i j k = record { at = refl }
    go false true c d e f g h i j k = record { at = refl }
    go false false true d e f g h i j k = record { at = refl }
    go false false false true e f g h i j k = record { at = refl }
    go false false false false true f g h i j k = record { at = refl }
    go false false false false false true g h i j k = record { at = refl }
    go false false false false false false true h i j k = record { at = refl }
    go false false false false false false false true i j k = record { at = refl }
    go false false false false false false false false true j k = record { at = refl }
    go false false false false false false false false false true k = record { at = refl }
    go false false false false false false false false false false true = record { at = refl }
    go false false false false false false false false false false false = record { at = refl }

memory-Fit : (e : MemoryError) → Fit (is_permanent e) (classify_memory_error e)
unfolding classify_memory_error
memory-Fit (MemoryError.backend msg) = backend-Fit msg
memory-Fit (MemoryError.schema_mismatch l t) = record { at = refl }
memory-Fit (MemoryError.missing_reverse_migration n) = record { at = refl }
memory-Fit (MemoryError.core e) = core-Fit e
memory-Fit (MemoryError.sqlx e) = sqlx-Fit e
memory-Fit MemoryError.other = record { at = refl }
memory-Fit MemoryError.streamer_shutdown = record { at = refl }

Kept-if :
    (text : Text) (b : Bool) (x y : Response)
    → Kept text x
    → Kept text y
    → Kept text (if b then x else y)
Kept-if text true x y p q = p
Kept-if text false x y p q = q

text-Kept : (text : Text) → Kept text (classify_text text)
unfolding classify_text
text-Kept text = search (Kept-if, retried, invalid, absent, unclassified)
  where
    retried : (code text : Text) → Kept text (Response.error ErrorClass.concurrency code text true)
    retried code text = record { at = (refl, refl) }

    invalid : (code text : Text) → Kept text (Response.error ErrorClass.validation code text false)
    invalid code text = record { at = (refl, refl) }

    absent : (code text : Text) → Kept text (Response.error ErrorClass.not_found code text false)
    absent code text = record { at = (refl, refl) }

    unclassified :
        (code text : Text) → Kept text (Response.error ErrorClass.internal code text false)
    unclassified code text = record { at = (refl, refl) }

-- Every error that a handler returns becomes an error reply with its full text, and the reply's
-- class keeps what is documented of it: validation, absence and internal errors are never
-- retryable, concurrency errors always are, a storage error is retryable unless what is stored is
-- corrupt, a memory error unless it is one of those that are known to last, and no reply has the
-- unknown class.
pub map-KeepsPromise :
    (fmt : Formats) (f : Failure)
    → KeepsPromise (lasts f.root) (full_text fmt f) (map_anyhow_to_response_error fmt f)
unfolding map_anyhow_to_response_error
map-KeepsPromise fmt f = go f.root (full_text fmt f)
  where
    go : (r : Root) (text : Text) → KeepsPromise (lasts r) text (classify_root r text)
    go (Root.approval e) text = (refl, refl)
    go (Root.memory e) text = (refl, (memory-Fit e).at)
    go (Root.core e) text = (refl, (core-Fit e).at)
    go (Root.migrate e) text = (text-Kept text).at
    go (Root.manifest e) text = (text-Kept text).at
    go (Root.io e) text = (text-Kept text).at
    go Root.utf8 text = (text-Kept text).at
    go (Root.message m) text = (text-Kept text).at
