-- ===== src/Lsp/Permissions/Tests.antt =====
-- A permission file and the theorems on it.
use pi_dotfiles.Prelude.{
  ℕ, ◌≡◌, refl, Option, none, some, List, [], ◌∷◌, Text, codes, text_discrete, true, false,
}
use pi_dotfiles.Prelude.Dict
use pi_dotfiles.Prelude.Json.{Value}
use pi_dotfiles.Lsp.Permissions
use pi_dotfiles.Lsp.Permissions.{
  Permission, Repos, Outcome, ok, err, PermissionError, Disk, WriteFault, Store, encode_file,
  parse_permission_file, read_permission_file,
}
use pi_dotfiles.Lsp.Permissions.RoundTrip.{IsFile, parse-encode_file}
use pi_dotfiles.Lsp.Permissions.Refines.{Change, Effect, verdict, run_change, change_refines}

abbrev repos : Repos
repos =
    (codes "/a", (codes "ts", Permission.allow) ∷ (codes "rust", Permission.deny) ∷ [])
    ∷ (codes "/b", (codes "ts", Permission.deny) ∷ [])
    ∷ []

abbrev store : Store
store = record { file = []; disk = Disk.holds (encode_file repos) }

-- What the permission functions compute with.
permissions : Unit {0}
unfolding run_change encode_file read_permission_file parse_permission_file Permissions.parse_repos
    Permissions.parse_repo Permissions.parse_permission Permissions.parse_fields
    Permissions.set_permission Permissions.reset_permission Permissions.change_file
    Permissions.write_permission_file Permissions.without_permission Permissions.with_permission
    Permissions.get_in Permissions.get_permission Dict.get Dict.set Dict.delete text_discrete
permissions = tt

-- The last server of a repository takes the repository with it.
reset_run :
    (run_change WriteFault.works (Change.resets (codes "/b") (some (codes "ts"))) store).1.file
    ≡ (codes "/a", (codes "ts", Permission.allow) ∷ (codes "rust", Permission.deny) ∷ []) ∷ []
unfolding permissions
reset_run = refl

rejected_run :
    parse_permission_file (Value.array (pi_dotfiles.Prelude.Json.nil))
    ≡ err PermissionError.not_object
unfolding permissions
rejected_run = refl

repos-IsFile : IsFile repos
unfolding permissions
repos-IsFile = record {
  distinct = (refl, (refl, tt));
  servers = ((refl, (refl, tt)), ((refl, tt), tt));
}

parse-encode_file_example : parse_permission_file (encode_file repos) ≡ ok repos
parse-encode_file_example = parse-encode_file repos repos-IsFile

change_refines_example :
    ((run_change WriteFault.works (Change.sets (codes "/b") (codes "go") Permission.allow) store).0
      ≡ verdict WriteFault.works (read_permission_file store.disk))
    × Effect
        (Change.sets (codes "/b") (codes "go") Permission.allow)
        store
        (run_change WriteFault.works (Change.sets (codes "/b") (codes "go") Permission.allow) store)
change_refines_example =
    change_refines WriteFault.works (Change.sets (codes "/b") (codes "go") Permission.allow) store
