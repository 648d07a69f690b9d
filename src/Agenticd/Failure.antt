-- ===== src/Agenticd/Failure.antt =====
-- `anyhow::Error` as the daemon uses it: the error at the root, and the contexts put round it.
use git_agentic.Common.{ℕ, List, [], ◌∷◌, ◌++◌, Action, map_err}
use git_agentic.Common.Text.{Text, codes}
use git_agentic.Fs.{Disk, ErrorKind}
use git_agentic.Core.Approval.{ApprovalRejection}
use git_agentic.Core.Error.{Error as CoreError}
use git_agentic.Core.Hash.{ParseHashError}
use git_agentic.Core.Staging.{DiskOf, on_disk}
use git_agentic.Memory.Error.{Error as MemoryError}
use git_agentic.Memory.Segment.{ManifestError}
use git_agentic.Agenticd.Migrate.{MigrateError}

-- `ApprovalError` of crates/agenticd/src/rollback/mod.rs
pub data ApprovalError : Type 0 where
  key_not_configured no_peer_uid token_required : ApprovalError
  rejected : ApprovalRejection → ApprovalError

-- What stands at the root of a chain: a typed error that is told apart later, or one that is only
-- printed.
pub data Root : Type 0 where
  approval : ApprovalError → Root
  memory : MemoryError → Root
  core : CoreError → Root
  migrate : MigrateError → Root
  manifest : ManifestError → Root
  io : ErrorKind → Root
  utf8 : Root
  message : Text → Root

-- The contexts, the outermost first
pub record Failure : Type 0 where
  pub contexts : List Text
  pub root : Root

abbrev pub failure : Root → Failure
failure root = record { contexts = []; root = root }

-- `anyhow!(message)`
abbrev pub anyhow : Text → Failure
anyhow text = failure (Root.message text)

-- `.context(text)`
abbrev pub in_context : Text → Failure → Failure
in_context text f = record f { contexts = text ∷ f.contexts }

module _ {S A : Type 0} where
  -- An action whose error is a root
  abbrev pub rooted : {E : Type 0} → (E → Root) → Action S E A → Action S Failure A
  rooted root m s = (map_err (λ e. failure (root e)) (m s).0, (m s).1)

  abbrev pub with_context : Text → Action S Failure A → Action S Failure A
  with_context text m s = (map_err (in_context text) (m s).0, (m s).1)

-- An action of the refs on the disk
abbrev pub on_refs : {S A : Type 0} → DiskOf S → Action Disk CoreError A → Action S Failure A
on_refs l m = rooted Root.core (on_disk l m)

-- How values are printed: `Display` of the errors at a root, with the sources of each, `Debug` of
-- a text, and the time format of a log entry. Derived code and the standard library write these.
pub record Formats : Type 0 where
  pub display : Root → Text
  pub debug : Text → Text
  pub hash_error : ParseHashError → Text
  pub to_rfc3339 : ℕ → Text

-- `format!("{err:#}")`
unfoldable pub full_text_of : Formats → List Text → Root → Text
full_text_of fmt [] root = fmt.display root
full_text_of fmt (c ∷ contexts) root = c ++ (codes ": " ++ full_text_of fmt contexts root)

abbrev pub full_text : Formats → Failure → Text
full_text fmt f = full_text_of fmt f.contexts f.root
