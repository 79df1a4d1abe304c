-- ===== src/Coordinator/Spawn.antt =====
-- What becomes of the reservation of a spawn that herdr-subagent/completion.ts makes.
use pi_dotfiles.Prelude.{
  ℕ, ◌≡◌, ◌⊎◌, inl, inr, refl, sym, subst, Bool, true, false, Option, none, some, List, Text,
}
use pi_dotfiles.Notify.Types.{Env}
use pi_dotfiles.Registry.Types.{RegistryEntry}
use pi_dotfiles.Coordinator.Types.{
  Params, OutcomeDetails, ActionOutcome, CompletionExecution, World, Call, ActionRun,
}
use pi_dotfiles.Coordinator.Input.{reserved_spawn_name, begin_call, run_action}
use pi_dotfiles.Coordinator.Execute.{
  release, reconcile_spawn, reconcile_details, receipts, reconcile, settle_call, finish_call,
  execute, finally_release,
}
use pi_dotfiles.Coordinator.Release.{IsReleased, release-IsReleased}

-- An answer that names the entry of a spawned subagent.
pub IsSpawned : Option CompletionExecution → Type 0
IsSpawned none = ⊥
IsSpawned (some e) =
    (entry : RegistryEntry) × (e.result.details ≡ OutcomeDetails.spawned (some entry))

module _ (env : Env) where
  reconcile-armed :
      (call : Call) (provisional : Bool) (details : OutcomeDetails) (is_error : Bool)
      (content : List Text) (w : World)
      → (let o : ActionOutcome = record {
        details = details;
        is_error = is_error;
        content = content;
      } in
          let (e, _, armed) = reconcile env call provisional o w in
          armed ≡ true → IsSpawned (some e))
  unfolding reconcile reconcile_details receipts reconcile_spawn IsSpawned
  reconcile-armed call provisional (OutcomeDetails.spawned none) is_error content w h = absurd cc
  reconcile-armed call provisional (OutcomeDetails.spawned (some entry)) is_error content w h =
      (entry, refl)
  reconcile-armed call provisional OutcomeDetails.status is_error content w h = absurd cc
  reconcile-armed call provisional OutcomeDetails.agent_types is_error content w h = absurd cc
  reconcile-armed call provisional OutcomeDetails.focused is_error content w h = absurd cc
  reconcile-armed call provisional (OutcomeDetails.inspected p c) is_error content w h = absurd cc
  reconcile-armed call provisional (OutcomeDetails.sent p) is_error content w h = absurd cc
  reconcile-armed call provisional (OutcomeDetails.waited p) is_error content w h = absurd cc
  reconcile-armed call provisional (OutcomeDetails.closed_entry e) is_error content w h = absurd cc
  reconcile-armed call provisional (OutcomeDetails.closed_pane p) is_error content w h = absurd cc

  -- What `finally` leaves, by whether the reservation is armed.
  finally-IsReleased :
      (call : Call) (name : Text) (armed : Bool) (answer : Option CompletionExecution) (w : World)
      → reserved_spawn_name call.params ≡ some name
      → (armed ≡ true → IsSpawned answer)
      → IsSpawned answer ⊎ IsReleased name (finally_release env call armed w).manager
  unfolding release
  finally-IsReleased call name true answer w reserved h = inl (h refl)
  finally-IsReleased call name false answer w reserved h = inr (
      subst (λ r. IsReleased name (release env r w).manager) (sym reserved)
        (release-IsReleased env name w.manager))

  settle-IsReleased :
      (call : Call) (name : Text) (provisional : Bool) (outcome : Option ActionOutcome) (w : World)
      → reserved_spawn_name call.params ≡ some name
      → (let (answer, w') = settle_call env call provisional outcome w in
          IsSpawned answer ⊎ IsReleased name w'.manager)
  unfolding settle_call
  settle-IsReleased call name provisional none w reserved =
      finally-IsReleased call name false none w reserved (λ h. absurd cc)
  settle-IsReleased call name provisional (some o) w reserved =
      let (e, w', armed) = reconcile env call provisional o w in
      finally-IsReleased call name armed (some e) w' reserved
        (reconcile-armed call provisional o.details o.is_error o.content w)

  -- A call that reserves the name of a spawn either answers with the registry entry of the spawned
  -- subagent, or leaves the name watched, or without a place in a batch and in a group and
  -- without a result that waits for it: whatever the action does, and whatever runs beside it.
  pub execute_spawn-IsReleased :
      (params : Params) (name socket_path fresh : Text) (now : ℕ) (run : ActionRun) (w : World)
      → reserved_spawn_name params ≡ some name
      → (let (answer, w') = execute env params socket_path fresh now run w in
          IsSpawned answer ⊎ IsReleased name w'.manager)
  unfolding execute finish_call begin_call
  execute_spawn-IsReleased params name socket_path fresh now run w reserved =
      let (call, begun) = begin_call env params socket_path fresh now w in
      let (w', provisional, outcome) = run_action env call run begun in
      settle-IsReleased call name provisional outcome w' reserved
