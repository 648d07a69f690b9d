-- ===== src/Memory/Error.antt =====
-- `Error` of crates/agentic-memory/src/lib.rs.
use git_agentic.Common.Text.{Text}
use git_agentic.Core.Error.{Error as CoreError}

-- The variants of `sqlx::Error` that the program tells apart
pub data SqlxError : Type 0 where
  row_not_found pool_timed_out pool_closed io database configuration column_not_found
        column_index_out_of_bounds column_decode type_not_found decode unlisted :
      SqlxError

pub data Error : Type 0 where
  backend : Text → Error
  schema_mismatch : (live target : Text) → Error
  missing_reverse_migration : Text → Error
  streamer_shutdown : Error
  core : CoreError → Error
  sqlx : SqlxError → Error
  other : Error
