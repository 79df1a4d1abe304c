-- ===== src/Registry/Reserve/Tests.antt =====
-- Calls of `reserveEntry` on a small directory, and the theorems on them.
use pi_dotfiles.Prelude.{
  ℕ, ◌+◌, ◌*◌, ◌≤◌, ◌≡◌, refl, arith, Option, none, some, List, [], ◌∷◌, Text, codes, text_discrete,
  true, false,
}
use pi_dotfiles.Prelude.Dict
use pi_dotfiles.Registry.Types.{RegistryEntry, Phase, entry_phase}
use pi_dotfiles.Registry.Lookup.{is_subagent_name}
use pi_dotfiles.Registry.Directory.{
  Dir, Fault, file_at, read_decoded, create_exclusive, rename, remove,
}
use pi_dotfiles.Registry.Reserve.{Outcome, Pc, is_stale, reserve_step, run_alone}
use pi_dotfiles.Registry.Reserve.Alone.{all_work, view, reserve_spec, reserve_refines}
use pi_dotfiles.Registry.Reserve.Race.{Turn, holds, run_two, one_reservation}
use pi_dotfiles.Registry.Reserve.Takeover.{both_take, both_reserve}

abbrev entry : Text → RegistryEntry
entry updated = record {
  name = codes "a";
  phase = some Phase.reserved;
  owner_pane_id = none;
  target = none;
  pane_id = none;
  tab_id = none;
  workspace_id = none;
  terminal_id = none;
  cwd = codes "/";
  label = codes "a";
  worktree = none;
  agent_type = none;
  model = none;
  thinking = none;
  task_file = codes "t";
  system_prompt_file = none;
  created_at = updated;
  updated_at = updated;
}

abbrev path : Text
path = codes "a.json"

-- A clock that reads a text of one unit as that many minutes.
abbrev minutes : Text → Option ℕ
minutes (c ∷ []) = some (c * 60000)
minutes _ = none

-- The old reservation is six minutes older than the new ones.
abbrev old_entry : RegistryEntry
old_entry = entry (1 ∷ [])

abbrev new_entry : Text → RegistryEntry
new_entry label = record (entry (7 ∷ [])) { label = label }

abbrev stale_dir : Dir
stale_dir = (path, some old_entry) ∷ []

-- What a reservation computes with.
reservation : Unit {0}
unfolding run_alone run_two reserve_step is_stale entry_phase is_subagent_name read_decoded
    create_exclusive rename remove Dict.get Dict.set Dict.delete text_discrete
reservation = tt

takeover_run :
    run_alone minutes (new_entry (codes "x")) path (codes "1") all_work 420000 Pc.ensures stale_dir
    ≡ (Pc.ends Outcome.reserved, (path, some (new_entry (codes "x"))) ∷ [])
unfolding reservation
takeover_run = refl

reserve_refines_example :
    let r =
      run_alone minutes
        (new_entry (codes "x"))
        path
        (codes "1")
        all_work
        420000
        Pc.ensures
        stale_dir in
    let (result, files) =
      reserve_spec minutes 420000 path (new_entry (codes "x")) (view stale_dir) in
    (r.0 ≡ Pc.ends result) × ((j : Text) → view r.1 j ≡ files j)
unfolding reservation
reserve_refines_example =
    reserve_refines minutes (new_entry (codes "x")) path (codes "1") 420000 stale_dir refl

both_reserve_example :
    let s =
      run_two minutes
        (new_entry (codes "x"))
        (new_entry (codes "y"))
        path
        (codes "1")
        (codes "2")
        (both_take 420000)
        (record { first = Pc.ensures; second = Pc.ensures; dir = stale_dir }) in
    (s.first ≡ Pc.ends Outcome.reserved)
    × (s.second ≡ Pc.ends Outcome.reserved)
    × (file_at path s.dir ≡ some (some (new_entry (codes "y"))))
unfolding reservation
both_reserve_example =
    both_reserve minutes (new_entry (codes "x")) (new_entry (codes "y")) path (codes "1")
      (codes "2") 420000 stale_dir (some old_entry) refl refl

abbrev create_turns : List Turn
create_turns =
    record { first_acts = true; fault = Fault.works; now = 420000 }
    ∷ record { first_acts = false; fault = Fault.works; now = 420000 }
    ∷ record { first_acts = false; fault = Fault.works; now = 420000 }
    ∷ record { first_acts = true; fault = Fault.works; now = 420000 }
    ∷ []

one_reservation_example :
    let s =
      run_two minutes
        (new_entry (codes "x"))
        (new_entry (codes "y"))
        path
        (codes "1")
        (codes "2")
        create_turns
        (record { first = Pc.ensures; second = Pc.ensures; dir = [] }) in
    holds s.first + holds s.second ≤ 1
unfolding reservation
one_reservation_example =
    one_reservation minutes (new_entry (codes "x")) (new_entry (codes "y")) path (codes "1")
      (codes "2") 420000 refl refl create_turns [] (omega arith) refl
