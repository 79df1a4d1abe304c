-- ===== src/Registry/Reserve.antt =====
-- `reserveEntry` of herdr-subagent/store.ts as a protocol on the directory: what one call has still
-- to do, and its next call of the file system. Other processes act between these steps.
pub mod Alone
pub mod Race
pub mod Takeover
mod Tests
use pi_dotfiles.Prelude.{
  ℕ, Bool, true, false, ◌&&◌, ltb, ◌-◌, if◌then◌else◌, Option, none, some, List, [], ◌∷◌, ◌++◌,
  Text, codes, text_discrete,
}
use pi_dotfiles.Registry.Types.{RegistryEntry, Phase, entry_phase}
use pi_dotfiles.Registry.Directory.{
  Dir, SysError, Fault, FsResult, file_at, entry_path, read_decoded, create_exclusive, rename,
  remove,
}

pub data FsOp : Type 0 where
  makes_directory opens reads renames : FsOp

pub data Outcome : Type 0 where
  reserved already_registered : Outcome
  failed : FsOp → Outcome

pub data Pc : Type 0 where
  ensures creates inspects takes_over removes retries : Pc
  ends : Outcome → Pc

abbrev pub stale_ms : ℕ
stale_ms = 300000

abbrev is_reserved : RegistryEntry → Bool
is_reserved e = elim (entry_phase e) [ Phase.reserved ↦ true | Phase.active ↦ false ]

-- The temporary name of a takeover; `id` is random.
abbrev pub takeover_path : (path id : Text) → Text
takeover_path path id = path ++ (codes ".tmp-takeover-" ++ id)

-- The runtime's `Date.parse`: the milliseconds of a date, or none for what is not one.
module _ (date_parse : Text → Option ℕ) where
  abbrev is_older : ℕ → Option ℕ → Bool
  is_older now none = false
  is_older now (some updated) = ltb stale_ms (now - updated)

  -- `staleReserved` for an entry that was read.
  unfoldable pub is_stale : ℕ → Option RegistryEntry → Bool
  unfolding entry_phase
  is_stale now none = false
  is_stale now (some e) = is_reserved e && is_older now (date_parse e.updated_at)

  after_create : FsResult → Pc
  after_create FsResult.done = Pc.ends Outcome.reserved
  after_create (FsResult.fails SysError.already_exists) = Pc.inspects
  after_create (FsResult.fails _) = Pc.ends (Outcome.failed FsOp.opens)

  after_rename : FsResult → Pc
  after_rename FsResult.done = Pc.removes
  after_rename (FsResult.fails SysError.not_found) = Pc.retries
  after_rename (FsResult.fails _) = Pc.ends (Outcome.failed FsOp.renames)

  after_retry : FsResult → Pc
  after_retry FsResult.done = Pc.ends Outcome.reserved
  after_retry (FsResult.fails SysError.already_exists) = Pc.ends Outcome.already_registered
  after_retry (FsResult.fails _) = Pc.ends (Outcome.failed FsOp.opens)

  module _ (e : RegistryEntry) (path id : Text) where
    unfoldable pub reserve_step : Fault → ℕ → Pc → Dir → Pc × Dir
    unfolding is_stale after_create after_rename after_retry
    reserve_step Fault.works now Pc.ensures dir = (Pc.creates, dir)
    reserve_step _ now Pc.ensures dir = (Pc.ends (Outcome.failed FsOp.makes_directory), dir)
    reserve_step fault now Pc.creates dir =
        let (r, dir') = create_exclusive fault path e dir in (after_create r, dir')
    reserve_step Fault.works now Pc.inspects dir =
        if is_stale now (read_decoded path dir)
        then (Pc.takes_over, dir)
        else (Pc.ends Outcome.already_registered, dir)
    reserve_step _ now Pc.inspects dir = (Pc.ends (Outcome.failed FsOp.reads), dir)
    reserve_step fault now Pc.takes_over dir =
        let (r, dir') = rename fault path (takeover_path path id) dir in (after_rename r, dir')
    reserve_step fault now Pc.removes dir =
        (Pc.retries, (remove fault (takeover_path path id) dir).1)
    reserve_step fault now Pc.retries dir =
        let (r, dir') = create_exclusive fault path e dir in (after_retry r, dir')
    reserve_step fault now (Pc.ends o) dir = (Pc.ends o, dir)

    -- A call that nothing interrupts, with the file system's answer at each step.
    unfoldable pub run_alone : List Fault → ℕ → Pc → Dir → Pc × Dir
    run_alone [] now pc dir = (pc, dir)
    run_alone (fault ∷ faults) now pc dir =
        let (pc', dir') = reserve_step fault now pc dir in run_alone faults now pc' dir'

  -- Where a call starts: a name that is not allowed is rejected at once.
  unfoldable pub first_pc : Option Text → Pc
  first_pc none = Pc.ends Outcome.already_registered
  first_pc (some path) = Pc.ensures
