-- ===== src/Coordinator/Tests.antt =====
-- A spawn and a send of the coordinator.
use pi_dotfiles.Prelude.{◌≡◌, ◌≢◌, ◌⊎◌, refl, none, some, [], ◌∷◌, codes, true, false}
use pi_dotfiles.Notify.Types.{Env}
use pi_dotfiles.Notify.State.{Options, initial}
use pi_dotfiles.Notify.Manager.{Event}
use pi_dotfiles.Coordinator.Arms.{WriteFault, completion_arm_path, read_subagent_completion_arm}
use pi_dotfiles.Coordinator.Types.{Action, Params, ResolvedPane, World, Other, Call, ActionRun}
use pi_dotfiles.Coordinator.Input.{run_input}
use pi_dotfiles.Coordinator.Execute.{execute}
use pi_dotfiles.Coordinator.Release.{IsReleased}
use pi_dotfiles.Coordinator.Spawn.{IsSpawned, execute_spawn-IsReleased}
use pi_dotfiles.Coordinator.Send.{failed_attempt, failed_send-restores}

-- An environment that truncates nothing and writes a number as one unit.
abbrev env : Env
env = record {
  max_lines = 2000;
  max_bytes = 50000;
  truncate_tail = λ text lines bytes. record {
    content = text;
    truncated = false;
    output_lines = 0;
    total_lines = 0;
    output_bytes = 0;
    total_bytes = 0;
  };
  format_size = λ n. n ∷ [];
  show = λ n. n ∷ [];
  strip_vt_control = λ t. t;
}

abbrev options : Options
options = record {
  arm_batch_window = 150;
  group_join_timeout = 30000;
  straggler_join_timeout = 15000;
}

-- The last arm of `a` is `one`.
abbrev world : World
world = record {
  manager = initial options;
  direct_result_names = codes "a" ∷ [];
  arms = (completion_arm_path (codes "a"), codes "one") ∷ [];
}

abbrev params : Action → Params
params action = record {
  action = action;
  name = some (codes "a");
  target = none;
  task = none;
  message = some (codes "go on");
  notify = none;
}

abbrev pane : ResolvedPane
pane = record { name = codes "a"; pane_id = codes "p1" }

-- The launch of the subagent fails while another spawn is under way.
abbrev failed_launch : ActionRun
failed_launch =
    ActionRun.with_input (Other.event (Event.begins (codes "b")) ∷ [])
      (failed_attempt pane WriteFault.works (Other.adopts (codes "b") ∷ [])) [] none

execute_spawn-IsReleased_example :
    let (answer, w') =
      execute env (params Action.spawn) (codes "s") (codes "two") 9 failed_launch world in
    IsSpawned answer ⊎ IsReleased (codes "a") w'.manager
execute_spawn-IsReleased_example =
    execute_spawn-IsReleased env (params Action.spawn) (codes "a") (codes "s") (codes "two") 9
      failed_launch world refl

abbrev send_call : Call
send_call = record {
  params = params Action.send;
  result_socket_path = codes "s";
  accept_results_since = 9;
  arm_id = some (codes "two");
  available = [];
}

works-other : WriteFault.works ≢ WriteFault.after_rename
works-other = λ e. absurd cc

failed_send-restores_example :
    let (w', _, success) =
      run_input env send_call
        (codes "two")
        (failed_attempt pane WriteFault.works (Other.event Event.cancels_all ∷ []))
        world in
    (success ≡ false)
    × (read_subagent_completion_arm true (codes "a") w'.arms
        ≡ read_subagent_completion_arm true (codes "a") world.arms)
failed_send-restores_example =
    failed_send-restores env send_call (codes "two") pane WriteFault.works
      (Other.event Event.cancels_all ∷ []) world refl works-other
