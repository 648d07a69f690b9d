-- ===== src/Samples/RefsRuns.antt =====
-- Runs of the refs at concrete inputs.
use git_agentic.Common.{
  ℕ, ◌≡◌, ◌≢◌, ◌↔◌, refl, some, [], ◌∷◌, ◌++◌, ok, err, ap, arith, list_beq, all, any, nat_eq,
  list_eq,
}
use git_agentic.Common.Dict.{get, insert, remove}
use git_agentic.Common.Text.{Text, codes, split, split_from, ends_with, starts_with, strip_prefix}
use git_agentic.Fs.{
  Disk, works, first_outcome, content, stat, create_dir_all, create_dir, create_dirs, sys_call,
  write, rename,
}
use git_agentic.Fs.Paths.{parent, with_extension_tmp, file_stem, rsplit_dot}
use git_agentic.Fs.Atomic.{replace}
use git_agentic.Core.Error.{Error}
use git_agentic.Core.Hash.{to_hex}
use git_agentic.Core.Refs.{
  Refs, newline, validate_branch_name, refuse_name, refuse_components, refuse_component,
  has_control, components, first_components, later_components, branch_path, branch_file, head_path,
  write_branch, read_branch,
}
use git_agentic.Core.Refs.Names.{IsBranchName, validate_branch_name_iff}
use git_agentic.Core.Refs.Writes.{
  write_branch_frame, write_branch-Reports, read_branch-write_branch,
}
use git_agentic.Samples.HexDigits.{hex, hex_laws}
use git_agentic.Samples.StoreRuns.{first_byte, ones, ones-IsHash, empty_disk}

abbrev pub refs : Refs
refs = record { agentic_dir = codes ".agentic" ∷ [] }

abbrev pub main : Text
main = codes "main"

abbrev feature : Text
feature = codes "fix/a.b"

pub main_valid : validate_branch_name main ≡ ok tt
unfolding validate_branch_name refuse_name refuse_components refuse_component has_control components
    first_components later_components split split_from ends_with starts_with strip_prefix list_beq
    all any
main_valid = refl

feature_valid : validate_branch_name feature ≡ ok tt
unfolding validate_branch_name refuse_name refuse_components refuse_component has_control components
    first_components later_components split split_from ends_with starts_with strip_prefix list_beq
    all any
feature_valid = refl

main_ne_feature : main ≢ feature
unfolding first_byte
main_ne_feature e = let d : ◌≡◌ {A = ℕ} 109 102 = ap first_byte e in omega arith

validate_branch_name_iff_example : (validate_branch_name feature ≡ ok tt) ↔ IsBranchName feature
validate_branch_name_iff_example = validate_branch_name_iff feature

abbrev written : Disk
written = (write_branch hex refs main ones empty_disk).1

-- Tests: what the calls of these runs return.
write_main : (write_branch hex refs main ones empty_disk).0 ≡ ok tt
unfolding validate_branch_name refuse_name refuse_components refuse_component has_control components
    first_components later_components split split_from ends_with starts_with strip_prefix list_beq
    all any write_branch branch_path stat get replace create_dir_all parent create_dir create_dirs
    sys_call insert remove write rename with_extension_tmp file_stem rsplit_dot to_hex
write_main = refl

works_after_main : first_outcome written.outcomes ≡ works
unfolding validate_branch_name refuse_name refuse_components refuse_component has_control components
    first_components later_components split split_from ends_with starts_with strip_prefix list_beq
    all any write_branch branch_path stat get replace create_dir_all parent create_dir create_dirs
    sys_call insert remove write rename with_extension_tmp file_stem rsplit_dot to_hex
works_after_main = refl

write_branch_frame_example :
    (content written (branch_file refs feature) ≡ content empty_disk (branch_file refs feature))
    × (content written (head_path refs) ≡ content empty_disk (head_path refs))
write_branch_frame_example =
    write_branch_frame hex refs main feature ones empty_disk main_valid feature_valid
      main_ne_feature

write_branch-Reports_example :
    ((write_branch hex refs main ones empty_disk).0 ≡ ok tt
      → content written (branch_file refs main) ≡ some (to_hex hex ones ++ newline))
    × ((e : Error)
        → (write_branch hex refs main ones empty_disk).0 ≡ err e
        → content written (branch_file refs main) ≡ content empty_disk (branch_file refs main))
write_branch-Reports_example = write_branch-Reports hex refs main ones main_valid empty_disk

read_branch-write_branch_example : (read_branch hex refs main written).0 ≡ ok (some ones)
read_branch-write_branch_example =
    read_branch-write_branch hex refs main ones main_valid hex_laws ones-IsHash empty_disk
      write_main works_after_main
