-- ===== src/Core/Error.antt =====
-- `Error` of crates/agentic-core/src/lib.rs.
use git_agentic.Common.{Action, List, map_err, Keeps}
use git_agentic.Common.Text.{Text}
use git_agentic.Core.Hash.{Hash}
use git_agentic.Core.Object.{ObjectKind}
use git_agentic.Core.Scanner.{Hit}
use git_agentic.Fs.{Disk, ErrorKind, Io}

pub data Error : Type 0 where
  io : ErrorKind → Error
  serialize : Error
  not_found : Hash → Error
  kind_mismatch : ObjectKind → ObjectKind → Error
  integrity_error : Hash → Hash → Error
  secret_detected : List Hit → Error
  invalid_branch_name : Text → Text → Error
  other : Error

-- `?` on an I/O result: `From<io::Error>`
abbrev pub from_io : {A : Type 0} → Io A → Action Disk Error A
from_io m d = (map_err io (m d).0, (m d).1)

pub Keeps-from_io : {A : Type 0} {P : Disk → Type 0} (m : Io A) → Keeps P m → Keeps P (from_io m)
Keeps-from_io m k = record { at = k.at }
