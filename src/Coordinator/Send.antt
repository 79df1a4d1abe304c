-- ===== src/Coordinator/Send.antt =====
-- The durable arm of a subagent around a send of herdr-subagent/completion.ts that fails.
use pi_dotfiles.Prelude.{
  ◌≡◌, ◌≢◌, refl, sym, ap, ◌∙◌, subst, arith, Bool, true, false, Option, none, some, List, [], ◌∷◌,
  Text, trim, trim_start, trim_end, text_discrete,
}
use pi_dotfiles.Prelude.Dict
use pi_dotfiles.Notify.Types.{Env}
use pi_dotfiles.Notify.Report.{or_else}
use pi_dotfiles.Notify.Manager.{accept_arm}
use pi_dotfiles.Coordinator.Arms.{
  ArmFiles, WriteFault, arm_in, completion_arm_path, write_private_runtime_file,
  write_subagent_completion_arm, read_subagent_completion_arm,
}
use pi_dotfiles.Coordinator.Types.{ResolvedPane, World, Other, Call, Attempt}
use pi_dotfiles.Coordinator.Input.{is_send, accept_send, input_of, run_input}

trim_end-trim_end : (t : Text) → trim_end (trim_end t) ≡ trim_end t
unfolding trim_end
trim_end-trim_end [] = refl
trim_end-trim_end (x ∷ t) = ground (arith, trim_end-trim_end t)

trim_start-trim : (t : Text) → trim_start (trim_end (trim_start t)) ≡ trim_end (trim_start t)
unfolding trim_start trim_end
trim_start-trim [] = refl
trim_start-trim (x ∷ t) = ground (arith, trim_start-trim t)

trim-trim : (t : Text) → trim (trim t) ≡ trim t
unfolding trim
trim-trim t = ap trim_end (trim_start-trim t) ∙ trim_end-trim_end (trim_start t)

arm_in-arm_in : (o : Option Text) → arm_in (some (or_else (arm_in o) [])) ≡ arm_in o
unfolding arm_in trim trim_start trim_end
arm_in-arm_in none = refl
arm_in-arm_in (some content) = ground (arith, trim-trim content)

-- What is read of a file is read again after it is written to the file.
read-restored :
    (name : Text) (files now : ArmFiles)
    → (let previous = read_subagent_completion_arm true name files in
        read_subagent_completion_arm true name
          (write_subagent_completion_arm WriteFault.works name (or_else previous []) now).1
        ≡ previous)
unfolding read_subagent_completion_arm write_subagent_completion_arm write_private_runtime_file
read-restored name files now =
    let path = completion_arm_path name in
    let previous = arm_in (Dict.get text_discrete path files) in
    ap arm_in (Dict.get-set_self text_discrete path (or_else previous []) now)
    ∙ arm_in-arm_in (Dict.get text_discrete path files)

-- An attempt at an input that is not sent; what was the durable arm before can be read.
abbrev pub failed_attempt : ResolvedPane → WriteFault → List Other → Attempt
failed_attempt pane fault during = record {
  pane = pane;
  readable = true;
  arm_fault = fault;
  during = during;
  dispatched = false;
  restore_fault = WriteFault.works;
}

module _ (env : Env) where
  arms-accept_send :
      (call : Call) (arm_id : Text) (pane : ResolvedPane) (w : World)
      → (accept_send env call arm_id pane w).0.arms ≡ w.arms
  unfolding accept_send
  arms-accept_send call arm_id pane w =
      let (m, accepted) = accept_arm pane.name arm_id w.manager in ground arith

  -- What a failed attempt does to the world, for a send where `sends` is true.
  IsRestored : (sends : Bool) → Call → (arm_id : Text) → Attempt → World → Type 0
  IsRestored sends call arm_id a w =
      let (w', _, success) = input_of env sends call arm_id a w in
      (success ≡ false)
      × (read_subagent_completion_arm true a.pane.name w'.arms
          ≡ read_subagent_completion_arm true a.pane.name w.arms)

  send-IsRestored :
      (call : Call) (arm_id : Text) (pane : ResolvedPane) (fault : WriteFault) (during : List Other)
      (w : World)
      → fault ≢ WriteFault.after_rename
      → IsRestored true call arm_id (failed_attempt pane fault during) w
  unfolding IsRestored input_of write_subagent_completion_arm write_private_runtime_file
  send-IsRestored call arm_id pane WriteFault.after_rename during w other = absurd (other refl)
  send-IsRestored call arm_id pane WriteFault.works during w other =
      (refl, read-restored pane.name w.arms _)
  send-IsRestored call arm_id pane WriteFault.before_rename during w other =
      (refl, ap (read_subagent_completion_arm true pane.name) (arms-accept_send call arm_id pane w))

  -- Where the input of a send fails, or the write of its arm fails before the file is replaced, the
  -- durable arm of the subagent is the one from before the send, whatever the manager meets while
  -- the input is sent: if the arm could be read, and the write that restores it works.
  pub failed_send-restores :
      (call : Call) (arm_id : Text) (pane : ResolvedPane) (fault : WriteFault) (during : List Other)
      (w : World)
      → is_send call.params.action ≡ true
      → fault ≢ WriteFault.after_rename
      → (let (w', _, success) = run_input env call arm_id (failed_attempt pane fault during) w in
          (success ≡ false)
          × (read_subagent_completion_arm true pane.name w'.arms
              ≡ read_subagent_completion_arm true pane.name w.arms))
  unfolding run_input IsRestored
  failed_send-restores call arm_id pane fault during w sends other =
      subst (λ b. IsRestored b call arm_id (failed_attempt pane fault during) w) (sym sends)
        (send-IsRestored call arm_id pane fault during w other)
