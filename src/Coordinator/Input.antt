-- ===== src/Coordinator/Input.antt =====
-- The start of an action in herdr-subagent/completion.ts, and the input that it sends to a pane.
use pi_dotfiles.Prelude.{
  ℕ, Bool, true, false, not, ◌&&◌, ◌||◌, if◌then◌else◌, Option, none, some, List, [], ◌∷◌, Text,
  codes, text_discrete,
}
use pi_dotfiles.Prelude.KeySet
use pi_dotfiles.Notify.Types.{CompletionSource, Env}
use pi_dotfiles.Notify.State.{Manager}
use pi_dotfiles.Notify.Report.{or_else, truthy}
use pi_dotfiles.Notify.Watchers.{begin_batch_member, arm}
use pi_dotfiles.Notify.Inspection.{begin_inspection}
use pi_dotfiles.Notify.Manager.{accept_arm, step}
use pi_dotfiles.Coordinator.Arms.{
  WriteFault, write_subagent_completion_arm, read_subagent_completion_arm,
}
use pi_dotfiles.Coordinator.Types.{
  Action, Params, ResolvedPane, ActionOutcome, World, Other, Call, Attempt, ActionRun,
  without_input, with_input,
}

-- `params.notify !== false`
abbrev pub notifies : Params → Bool
notifies params = or_else params.notify true

abbrev pub is_spawn : Action → Bool
is_spawn Action.spawn = true
is_spawn _ = false

abbrev pub is_send : Action → Bool
is_send Action.send = true
is_send _ = false

abbrev pub reserved_spawn_name : Params → Option Text
reserved_spawn_name params =
    if is_spawn params.action && notifies params && truthy params.name then params.name else none

abbrev pub with_manager : Manager → World → World
with_manager m w = record w { manager = m }

abbrev pub is_direct : Text → World → Bool
is_direct name w = KeySet.has text_discrete name w.direct_result_names

module _ (env : Env) where
  unfoldable pub run_other : Other → World → World
  run_other (Other.event e) w = with_manager (step env e w.manager) w
  run_other (Other.adopts name) w = record w {
    direct_result_names = KeySet.add text_discrete name w.direct_result_names;
  }
  run_other Other.resets w = record w { direct_result_names = [] }

  unfoldable pub run_others : List Other → World → World
  unfolding run_other
  run_others [] w = w
  run_others (o ∷ os) w = run_others os (run_other o w)

  -- The captured values of a call of `execute`; `fresh` is the new arm identity.
  unfoldable pub begin_call : Params → (socket_path fresh : Text) → (now : ℕ) → World → Call × World
  begin_call params socket_path fresh now w =
      let armed = notifies params && (is_spawn params.action || is_send params.action) in
      (
        record {
          params = params;
          result_socket_path = socket_path;
          accept_results_since = now;
          arm_id = if armed then some fresh else none;
          available = begin_inspection w.manager;
        },
        elim (reserved_spawn_name params) [
          | none ↦ w
          | some name ↦ with_manager (begin_batch_member env name w.manager) w
        ],
      )

  unfoldable pub arm_for : Call → (name pane_id summary : Text) → CompletionSource → World → World
  arm_for call name pane_id summary source w =
      with_manager
        (arm env
          (record {
            name = name;
            pane_id = pane_id;
            summary_source = summary;
            completion_source = some source;
            accept_results_since = some call.accept_results_since;
            expected_arm_id = call.arm_id;
          })
          call.accept_results_since w.manager)
        w

  unfoldable pub arm_sent : Call → ResolvedPane → World → World
  unfolding arm_for
  arm_sent call pane w =
      arm_for call pane.name pane.pane_id
        (or_else call.params.message (codes "subagent follow-up message")) CompletionSource.rpc w

  -- The acceptance of a send before its arm is written; true where a provisional watcher is armed.
  unfoldable pub accept_send : Call → (arm_id : Text) → ResolvedPane → World → World × Bool
  unfolding arm_sent
  accept_send call arm_id pane w =
      let (m, accepted) = accept_arm pane.name arm_id w.manager in
      if not accepted && is_direct pane.name w
      then (arm_sent call pane (with_manager m w), true)
      else (with_manager m w, false)

  write_arm : WriteFault → (name arm_id : Text) → World → Bool × World
  write_arm fault name arm_id w =
      let (written, files) = write_subagent_completion_arm fault name arm_id w.arms in
      (written, record w { arms = files })

  -- `runInput`, for a send and for a spawn: the world, whether a provisional watcher is armed, and
  -- whether the input succeeded.
  unfoldable pub input_of :
      (sends : Bool) → Call → (arm_id : Text) → Attempt → World → World × Bool × Bool
  unfolding accept_send write_arm run_others
  input_of sends call arm_id a w =
      let previous = read_subagent_completion_arm a.readable a.pane.name w.arms in
      let (w1, provisional) = if sends then accept_send call arm_id a.pane w else (w, false) in
      let (armed, w2) = write_arm a.arm_fault a.pane.name arm_id w1 in
      let w3 = run_others a.during w2 in
      let restored = (write_arm a.restore_fault a.pane.name (or_else previous []) w3).1 in
      if not armed
      then (w2, provisional, false)
      else if a.dispatched
      then (w3, provisional, true)
      else (if sends then restored else w3, provisional, false)

  unfoldable pub run_input : Call → (arm_id : Text) → Attempt → World → World × Bool × Bool
  unfolding input_of
  run_input call arm_id a w = input_of (is_send call.params.action) call arm_id a w

  -- `executeAction` with the arm of the call; it throws where it has no outcome.
  unfoldable pub run_action : Call → ActionRun → World → World × Bool × Option ActionOutcome
  run_action call (without_input before outcome) w = (run_others before w, false, outcome)
  run_action call (with_input before a after outcome) w =
      let w1 = run_others before w in
      elim call.arm_id [
        | none ↦
            let w2 = run_others a.during w1 in
            if a.dispatched then (run_others after w2, false, outcome) else (w2, false, none)
        | some arm_id ↦
            let (w2, provisional, success) = run_input call arm_id a w1 in
            if success then (run_others after w2, provisional, outcome) else (w2, provisional, none)
      ]
