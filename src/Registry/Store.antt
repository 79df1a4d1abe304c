-- ===== src/Registry/Store.antt =====
-- The other operations of herdr-subagent/store.ts on the directory of entry files.
use pi_dotfiles.Prelude.{
  sort_by, ℕ, Bool, true, false, ◌&&◌, ltb, ◌-◌, if◌then◌else◌, Option, none, some, List, [], ◌∷◌,
  ◌++◌, Text, codes, text_discrete, includes, take_last, length, pick,
}
use pi_dotfiles.Prelude.Dict
use pi_dotfiles.Registry.Types.{RegistryEntry}
use pi_dotfiles.Registry.Directory.{
  Dir, SysError, Fault, FsResult, file_at, entry_path, read_decoded, rename, remove,
}

-- `readEntry` where the file can be read. The migration is a step of its own.
unfoldable pub read_entry : Text → Dir → Option RegistryEntry
read_entry name dir = elim (entry_path name) [ none ↦ none | some path ↦ read_decoded path dir ]

abbrev ends_with : Text → Text → Bool
ends_with suffix text = pick (text_discrete (take_last (length suffix) text) suffix) true false

-- The entries of the files that `listEntries` reads, in the directory's order.
entries_in : Dir → Dir → List RegistryEntry
entries_in [] dir = []
entries_in ((name, f) ∷ rest) dir =
    let others = entries_in rest dir in
    if ends_with (codes ".json") name
    then elim (read_decoded name dir) [ none ↦ others | some e ↦ e ∷ others ]
    else others

-- `fs.stat` gives the time of a file's last change, if it knows it, or fails.
pub data Stat : Type 0 where
  unknown fails : Stat
  changed : ℕ → Stat

abbrev pub tmp_stale_ms : ℕ
tmp_stale_ms = 3600000

abbrev is_old : ℕ → Stat → Bool
is_old now Stat.unknown = true
is_old now Stat.fails = false
is_old now (Stat.changed t) = ltb tmp_stale_ms (now - t)

-- The loop of `sweepStaleRegistryTempFiles` over the names that it read.
unfoldable pub sweep : (stat : Text → Stat) → (fault : Text → Fault) → ℕ → List Text → Dir → Dir
sweep stat fault now [] dir = dir
sweep stat fault now (name ∷ names) dir =
    if includes (codes ".tmp-") name && is_old now (stat name)
    then sweep stat fault now names (remove (fault name) name dir).1
    else sweep stat fault now names dir

-- `le` is the runtime's `localeCompare`. `listEntries` after the sweep, where the directory and its files can be read.
unfoldable pub list_entries : (Text → Text → Bool) → Dir → List RegistryEntry
unfolding entries_in
list_entries le dir = sort_by (λ a b. le a.name b.name) (entries_in dir dir)

abbrev pub temp_path : (path id : Text) → Text
temp_path path id = path ++ (codes ".tmp-" ++ id)

-- A write of a whole file: `tears` leaves a text that does not decode.
write_file : Fault → Text → RegistryEntry → Dir → FsResult × Dir
write_file Fault.works path e dir = (FsResult.done, Dict.set text_discrete path (some e) dir)
write_file Fault.tears path e dir =
    (FsResult.fails SysError.other, Dict.set text_discrete path none dir)
write_file Fault.breaks path e dir = (FsResult.fails SysError.other, dir)

-- `finalizeEntry`: a temporary file is written and moved to the entry's place. `made` says whether
-- the directory could be made.
unfoldable pub finalize_entry :
    (made : Bool) → (write move : Fault) → (id : Text) → RegistryEntry → Dir → Bool × Dir
unfolding write_file
finalize_entry made write move id e dir = elim (entry_path e.name) [
  | none ↦ (true, dir)
  | some path ↦
      if made
      then (let (written, dir1) = write_file write (temp_path path id) e dir in
          elim written [
            | FsResult.fails x ↦ (false, dir1)
            | FsResult.done ↦
                let (moved, dir2) = rename move (temp_path path id) path dir1 in
                elim moved [ FsResult.done ↦ (true, dir2) | FsResult.fails x ↦ (false, dir2) ]
          ])
      else (false, dir)
]

-- `updateEntryHints`: the file is opened only if it is there. `tears` is a failure after it was cut.
unfoldable pub update_entry_hints : Fault → RegistryEntry → Dir → Dir
update_entry_hints fault e dir = elim (entry_path e.name) [
  | none ↦ dir
  | some path ↦ elim (file_at path dir) [
    | none ↦ dir
    | some f ↦ elim fault [
      | Fault.works ↦ Dict.set text_discrete path (some e) dir
      | Fault.tears ↦ Dict.set text_discrete path none dir
      | Fault.breaks ↦ dir
    ]
  ]
]

-- `removeEntry`
unfoldable pub remove_entry : Fault → Text → Dir → FsResult × Dir
remove_entry fault name dir = elim (entry_path name) [
  | none ↦ (FsResult.done, dir)
  | some path ↦ remove fault path dir
]

-- What the file system answers while one entry is migrated.
pub record MigrationFaults : Type 0 where
  pub readable : Bool
  pub made : Bool
  pub write : Fault
  pub move : Fault
  pub id : Text

-- One round of the loop of `migrateLegacyRegistry`, for a value that decodes: the directory, and
-- whether the entry is at its place.
unfoldable pub migrate_one : MigrationFaults → RegistryEntry → Dir → Bool × Dir
unfolding finalize_entry
migrate_one faults e dir = elim (entry_path e.name) [
  | none ↦ (true, dir)
  | some path ↦
      if faults.readable
      then elim (file_at path dir) [
        | some f ↦ (true, dir)
        | none ↦ finalize_entry faults.made faults.write faults.move faults.id e dir
      ]
      else (false, dir)
]

-- The loop over the values of the old file's entries; `none` is a value that does not decode. The
-- result says whether the old file is renamed.
unfoldable pub migrate_all : List (Option RegistryEntry × MigrationFaults) → Dir → Bool × Dir
unfolding migrate_one
migrate_all [] dir = (true, dir)
migrate_all ((none, faults) ∷ values) dir = migrate_all values dir
migrate_all ((some e, faults) ∷ values) dir =
    let (here, dir1) = migrate_one faults e dir in
    let (later, dir2) = migrate_all values dir1 in (here && later, dir2)
