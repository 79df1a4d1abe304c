-- ===== src/Lsp/Permissions.antt =====
-- lsp/permissions.ts: the decoded permission file, and the store over it.
pub mod RoundTrip
pub mod Refines
mod Tests
use pi_dotfiles.Prelude.{
  ℕ, Bool, true, false, ◌==◌, if◌then◌else◌, Option, none, some, List, [], ◌∷◌, ◌++◌, Text, codes,
  text_discrete, pick, map, is_empty,
}
use pi_dotfiles.Prelude.Dict
use pi_dotfiles.Prelude.Json
use pi_dotfiles.Prelude.Json.{Value, fields_of, fields_from, lookup, as_record}

pub data Permission : Type 0 where
  allow deny : Permission

abbrev pub Repo : Type 0
Repo = List (Text × Permission)

-- The `repos` of a permission file; its version is 1.
abbrev pub Repos : Type 0
Repos = List (Text × Repo)

pub data PermissionError : Type 0 where
  not_object bad_version bad_repos : PermissionError
  repo_not_object : (repo : Text) → PermissionError
  not_permission : (repo server : Text) → PermissionError
  invalid_json unreadable : PermissionError
  no_directory no_temp_file no_replace : PermissionError

pub data Outcome {ℓ} (A : Type ℓ) : Type ℓ where
  ok : A → Outcome A
  err : PermissionError → Outcome A

infixl 5 ◌>>=◌
abbrev pub ◌>>=◌ {ℓ κ} : {A : Type ℓ} {B : Type κ} → Outcome A → (A → Outcome B) → Outcome B
ok a >>= f = f a
err e >>= f = err e

-- A loop that decodes the fields of an object and puts each into a new object.
unfoldable pub parse_fields :
    {V : Type 0}
    → (Text → Value → Outcome V)
    → List (Text × V)
    → List (Text × Value)
    → Outcome (List (Text × V))
parse_fields f acc [] = ok acc
parse_fields f acc ((k, v) ∷ fs) = elim (f k v) [
  | err e ↦ err e
  | ok p ↦ parse_fields f (Dict.set text_discrete k p acc) fs
]

unfoldable pub parse_permission : (repo server : Text) → Value → Outcome Permission
parse_permission repo server (Value.string t) =
    pick (text_discrete t (codes "allow")) (ok Permission.allow) (
      pick (text_discrete t (codes "deny")) (ok Permission.deny)
        (err (PermissionError.not_permission repo server)))
parse_permission repo server _ = err (PermissionError.not_permission repo server)

unfoldable pub parse_repo : (repo : Text) → Value → Outcome Repo
parse_repo repo v = elim (as_record v) [
  | none ↦ err (PermissionError.repo_not_object repo)
  | some fs ↦ parse_fields (parse_permission repo) [] fs
]

abbrev is_version_one : Option Value → Bool
is_version_one (some (Value.number n)) = n == 1
is_version_one _ = false

unfoldable pub parse_repos : Option Value → Outcome Repos
parse_repos none = err PermissionError.bad_repos
parse_repos (some v) = elim (as_record v) [
  | none ↦ err PermissionError.bad_repos
  | some fs ↦ parse_fields parse_repo [] fs
]

unfoldable pub parse_permission_file : Value → Outcome Repos
parse_permission_file v = elim (as_record v) [
  | none ↦ err PermissionError.not_object
  | some fs ↦
      if is_version_one (lookup (codes "version") fs)
      then parse_repos (lookup (codes "repos") fs)
      else err PermissionError.bad_version
]

-- What `JSON.stringify` writes for a permission file.
abbrev pub encode_permission : Permission → Value
encode_permission Permission.allow = Value.string (codes "allow")
encode_permission Permission.deny = Value.string (codes "deny")

abbrev pub encode_fields : {V : Type 0} → (V → Value) → List (Text × V) → List (Text × Value)
encode_fields g [] = []
encode_fields g ((k, v) ∷ m) = (k, g v) ∷ encode_fields g m

abbrev pub encode_repo : Repo → Value
encode_repo m = Value.object (fields_from (encode_fields encode_permission m))

unfoldable pub encode_file : Repos → Value
encode_file repos = Value.object (
    fields_from (
      (codes "version", Value.number 1)
      ∷ (codes "repos", Value.object (fields_from (encode_fields encode_repo repos)))
      ∷ []))

-- The file on the disk: absent, not readable, not JSON, or JSON.
pub data Disk : Type 0 where
  missing broken garbled : Disk
  holds : Value → Disk

unfoldable pub read_permission_file : Disk → Outcome Repos
read_permission_file Disk.missing = ok []
read_permission_file Disk.broken = err PermissionError.unreadable
read_permission_file Disk.garbled = err PermissionError.invalid_json
read_permission_file (Disk.holds v) = parse_permission_file v

-- Which call of the file system fails while the file is replaced, if one does.
pub data WriteFault : Type 0 where
  works no_directory no_temp_file no_replace : WriteFault

unfoldable pub write_permission_file : WriteFault → Repos → Disk → Outcome (Unit {0}) × Disk
write_permission_file WriteFault.works repos disk = (ok tt, Disk.holds (encode_file repos))
write_permission_file WriteFault.no_directory repos disk = (err PermissionError.no_directory, disk)
write_permission_file WriteFault.no_temp_file repos disk = (err PermissionError.no_temp_file, disk)
write_permission_file WriteFault.no_replace repos disk = (err PermissionError.no_replace, disk)

-- The store's `file`, and the file on the disk, which other processes replace too.
pub record Store : Type 0 where
  pub file : Repos
  pub disk : Disk

abbrev pub repo_of : Text → Repos → Repo
repo_of repo repos = elim (Dict.get text_discrete repo repos) [ none ↦ [] | some m ↦ m ]

-- `file.repos[repoRoot]?.[serverId]`
unfoldable pub get_in : Repos → (repo server : Text) → Option Permission
get_in repos repo server = Dict.get text_discrete server (repo_of repo repos)

unfoldable pub get_permission : (repo server : Text) → Store → Option Permission
get_permission repo server s = get_in s.file repo server

unfoldable pub with_permission : (repo server : Text) → Permission → Repos → Repos
with_permission repo server p repos =
    Dict.set text_discrete repo (Dict.set text_discrete server p (repo_of repo repos)) repos

-- `delete repo[serverId]`, and the repository too if that leaves it empty.
unfoldable pub without_permission : (repo server : Text) → Repos → Repos
without_permission repo server repos = elim (Dict.get text_discrete repo repos) [
  | none ↦ repos
  | some m ↦
      let rest = Dict.delete text_discrete server m in
      if is_empty rest
      then Dict.delete text_discrete repo repos
      else Dict.set text_discrete repo rest repos
]

-- Under the lock: the file is read again, changed and written, and the store takes it.
unfoldable pub change_file : WriteFault → (Repos → Repos) → Store → Outcome (Unit {0}) × Store
change_file fault change s = elim (read_permission_file s.disk) [
  | err e ↦ (err e, s)
  | ok repos ↦
      let (r, disk) = write_permission_file fault (change repos) s.disk in
      elim r [
        | err e ↦ (err e, record s { disk = disk })
        | ok u ↦ (ok u, record { file = change repos; disk = disk })
      ]
]

unfoldable pub set_permission :
    WriteFault → (repo server : Text) → Permission → Store → Outcome (Unit {0}) × Store
set_permission fault repo server p s = change_file fault (with_permission repo server p) s

unfoldable pub reset_permission :
    WriteFault → (repo : Text) → (server : Option Text) → Store → Outcome (Unit {0}) × Store
reset_permission fault repo none s = change_file fault (Dict.delete text_discrete repo) s
reset_permission fault repo (some server) s = change_file fault (without_permission repo server) s

-- `LspPermissionStore.load`
unfoldable pub load : Disk → Outcome Store
load disk = elim (read_permission_file disk) [
  | err e ↦ err e
  | ok repos ↦ ok (record { file = repos; disk = disk })
]
