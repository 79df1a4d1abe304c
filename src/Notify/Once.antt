-- ===== src/Notify/Once.antt =====
-- `processExternalResult` of herdr-subagent/notifications.ts, for a result that comes again.
use pi_dotfiles.Prelude.{◌≡◌, ◌≢◌, true, false, List, Text, arith, All, text_discrete}
use pi_dotfiles.Prelude.KeySet
use pi_dotfiles.Notify.Types.{ExternalResult, Env}
use pi_dotfiles.Notify.State.{Manager}
use pi_dotfiles.Notify.Report.{
  remember_report, remember_delivered_arm, enqueue_external, completion_identity, Verdict, judge,
  follow, process_external_result,
}
use pi_dotfiles.Notify.Manager.{Event, step, run, deliver_external}
use pi_dotfiles.Notify.Memory.{Memory, memory}
use pi_dotfiles.Notify.Stable.{IsStable, accept_result-marks}
use pi_dotfiles.Notify.Stable.Events.{run-keeps}

module _ (env : Env) where
  -- The identity is among those delivered.
  abbrev IsDelivered : Text → Memory → Type 0
  IsDelivered id m = KeySet.has text_discrete id m.completions ≡ true

  IsDelivered-IsStable : (id : Text) → IsStable env (IsDelivered id)
  unfolding remember_report remember_delivered_arm enqueue_external
  IsDelivered-IsStable id = record {
    watcher = λ m w h. h;
    report = λ d s h. h;
    arm = λ a s h. h;
    enqueue = λ k r s h. h;
    forget = λ k m h. h;
    complete = λ new m h. ground (arith, KeySet.has-add text_discrete new id m.completions);
  }

  follow_taken :
      (v : Verdict) (name : Text) (r : ExternalResult) (s : Manager)
      → (follow env v name r s).1 ≡ true
      → IsDelivered (completion_identity env name r) (memory (follow env v name r s).0)
  unfolding follow
  follow_taken Verdict.drops name r s h = cc
  follow_taken Verdict.queues name r s h = cc
  follow_taken (Verdict.takes slot) name r s h =
      let id = completion_identity env name r in
      accept_result-marks env (IsDelivered id) (IsDelivered-IsStable id) name slot r s
        (ground (arith, KeySet.has-add text_discrete id id s.delivered_completion_ids))

  refuse_delivered :
      (name : Text) (r : ExternalResult) (s : Manager)
      → IsDelivered (completion_identity env name r) (memory s)
      → process_external_result env name r s ≡ (s, false)
  unfolding process_external_result judge follow
  refuse_delivered name r s h = rw h

  -- A result that was taken is refused, and changes nothing, after every later history without
  -- `cancelAll`, under whatever name its identity comes back.
  pub taken_once :
      (name again : Text) (r r' : ExternalResult) (s : Manager) (es : List Event)
      → (process_external_result env name r s).1 ≡ true
      → completion_identity env again r' ≡ completion_identity env name r
      → All (λ e. e ≢ Event.cancels_all) es
      → process_external_result env again r' (run env es (step env (Event.delivers name r) s))
        ≡ (run env es (step env (Event.delivers name r) s), false)
  unfolding step deliver_external process_external_result
  taken_once name again r r' s es taken same others =
      let id = completion_identity env name r in
      let kept =
        run-keeps env (IsDelivered id) (IsDelivered-IsStable id) es
          (step env (Event.delivers name r) s) others
          (follow_taken (judge env name r s) name r s taken) in
      refuse_delivered again r' _ (rw same kept)
