-- ===== src/Registry/Directory.antt =====
-- The directory of entry files of herdr-subagent/store.ts, and the operations on one file. A file is
-- what decoding its text gives; `none` is a text that does not decode.
use pi_dotfiles.Prelude.{if◌then◌else◌, Option, none, some, List, ◌++◌, Text, codes, text_discrete}
use pi_dotfiles.Prelude.Dict
use pi_dotfiles.Registry.Types.{RegistryEntry}
use pi_dotfiles.Registry.Lookup.{is_subagent_name}

abbrev pub Dir : Type 0
Dir = List (Text × Option RegistryEntry)

pub data SysError : Type 0 where
  already_exists not_found other : SysError

-- How the file system answers a call that the state of the directory allows.
pub data Fault : Type 0 where
  works breaks tears : Fault

pub data FsResult : Type 0 where
  done : FsResult
  fails : SysError → FsResult

abbrev pub file_at : Text → Dir → Option (Option RegistryEntry)
file_at path dir = Dict.get text_discrete path dir

-- The file of a name, unless the name is not allowed.
unfoldable pub entry_path : Text → Option Text
entry_path name = if is_subagent_name name then some (name ++ codes ".json") else none

abbrev pub checked : RegistryEntry → Option RegistryEntry
checked e = if is_subagent_name e.name then some e else none

-- `readDecodedEntryFromPath`, where the file can be read.
unfoldable pub read_decoded : Text → Dir → Option RegistryEntry
read_decoded path dir = elim (file_at path dir) [
  | none ↦ none
  | some none ↦ none
  | some (some e) ↦ checked e
]

-- `createEntryFileExclusive`. A file that was opened and not written stays there.
unfoldable pub create_exclusive : Fault → Text → RegistryEntry → Dir → FsResult × Dir
create_exclusive Fault.breaks path e dir = (FsResult.fails SysError.other, dir)
create_exclusive Fault.works path e dir = elim (file_at path dir) [
  | some f ↦ (FsResult.fails SysError.already_exists, dir)
  | none ↦ (FsResult.done, Dict.set text_discrete path (some e) dir)
]
create_exclusive Fault.tears path e dir = elim (file_at path dir) [
  | some f ↦ (FsResult.fails SysError.already_exists, dir)
  | none ↦ (FsResult.fails SysError.other, Dict.set text_discrete path none dir)
]

-- `rename`, which replaces what stands at its target.
unfoldable pub rename : Fault → (from to : Text) → Dir → FsResult × Dir
rename Fault.works from to dir = elim (file_at from dir) [
  | none ↦ (FsResult.fails SysError.not_found, dir)
  | some f ↦ (FsResult.done, Dict.set text_discrete to f (Dict.delete text_discrete from dir))
]
rename _ from to dir = (FsResult.fails SysError.other, dir)

-- `remove` with `force`.
unfoldable pub remove : Fault → Text → Dir → FsResult × Dir
remove Fault.works path dir = (FsResult.done, Dict.delete text_discrete path dir)
remove _ path dir = (FsResult.fails SysError.other, dir)
