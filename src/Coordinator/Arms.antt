-- ===== src/Coordinator/Arms.antt =====
-- The files of herdr-subagent/subagent-rpc.ts that name the arm of a subagent's run.
use pi_dotfiles.Prelude.{
  ℕ, Bool, true, false, ◌==◌, ◌&&◌, ◌||◌, if◌then◌else◌, Option, none, some, List, [], ◌∷◌, ◌++◌,
  Text, codes, text_discrete, is_empty, trim,
}
use pi_dotfiles.Prelude.Dict
use pi_dotfiles.Prelude.Regex.{is_upper, is_lower, is_digit}

abbrev is_safe_unit : ℕ → Bool
is_safe_unit c = is_upper c || is_lower c || is_digit c || (c == b'.') || (c == b'_') || (c == b'-')

-- `value.replaceAll(/[^a-zA-Z0-9._-]+/g, "-")`, where `after` says that such a run goes on.
dashed : (after : Bool) → Text → Text
dashed after [] = []
dashed after (x ∷ xs) =
    if is_safe_unit x
    then x ∷ dashed false xs
    else if after
    then dashed true xs
    else b'-' ∷ dashed true xs

-- `value.replaceAll(/^-+|-+$/g, "")`
without_lead : Text → Text
without_lead [] = []
without_lead (x ∷ xs) = if x == b'-' then without_lead xs else x ∷ xs

without_end : Text → Text
without_end [] = []
without_end (x ∷ xs) =
    let rest = without_end xs in if is_empty rest && (x == b'-') then [] else x ∷ rest

unfoldable pub safe_file_part : Text → Text
unfolding dashed without_lead without_end
safe_file_part value =
    let cleaned = without_end (without_lead (dashed false value)) in
    if is_empty cleaned then codes "subagent" else cleaned

unfoldable pub completion_arm_path : Text → Text
completion_arm_path name = codes "v1-" ++ (safe_file_part name ++ codes ".arm")

-- How far a write of a private file gets: a fault before the rename leaves the file as it was, and
-- one after it only reports a failure.
pub data WriteFault : Type 0 where
  works before_rename after_rename : WriteFault

-- The files of the arms, by their paths.
abbrev pub ArmFiles : Type 0
ArmFiles = List (Text × Text)

unfoldable pub write_private_runtime_file :
    WriteFault → (path content : Text) → ArmFiles → Bool × ArmFiles
write_private_runtime_file WriteFault.works path content files =
    (true, Dict.set text_discrete path content files)
write_private_runtime_file WriteFault.before_rename path content files = (false, files)
write_private_runtime_file WriteFault.after_rename path content files =
    (false, Dict.set text_discrete path content files)

unfoldable pub write_subagent_completion_arm :
    WriteFault → (name arm_id : Text) → ArmFiles → Bool × ArmFiles
write_subagent_completion_arm fault name arm_id files =
    write_private_runtime_file fault (completion_arm_path name) arm_id files

-- The arm that the content of a file names.
unfoldable pub arm_in : Option Text → Option Text
arm_in none = none
arm_in (some content) = let arm_id = trim content in if is_empty arm_id then none else some arm_id

-- A file that cannot be read names no arm.
unfoldable pub read_subagent_completion_arm :
    (readable : Bool) → (name : Text) → ArmFiles → Option Text
unfolding arm_in
read_subagent_completion_arm true name files =
    arm_in (Dict.get text_discrete (completion_arm_path name) files)
read_subagent_completion_arm false name files = none
