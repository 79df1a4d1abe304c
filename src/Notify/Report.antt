-- ===== src/Notify/Report.antt =====
-- How `createSubagentNotificationManager` takes a completion: what it remembers, where the report
-- goes, and which external results wait for their watcher.
use pi_dotfiles.Prelude.{
  ℕ, Bool, true, false, not, ltb, ◌&&◌, if◌then◌else◌, Option, none, some, List, [], ◌∷◌, ◌++◌,
  Text, codes, text_discrete, ℕ_discrete, length, take_last, some_of, concat, is_empty, pick,
}
use pi_dotfiles.Prelude.Dict
use pi_dotfiles.Prelude.KeySet
use pi_dotfiles.Notify.Types.{
  WatcherSlot, NotificationDelivery, CompletionGroup, ExternalResult, ReportKind, Env,
}
use pi_dotfiles.Notify.Envelope.{
  individual_message, truncate_for_model, external_delivery_for, state_text,
}
use pi_dotfiles.Notify.State.{Manager, send, abort, finalize_current_arm_batch_for}
use pi_dotfiles.Notify.Groups.{put_group, maybe_deliver_completed_group}

abbrev pub max_tracked : ℕ
max_tracked = 256

abbrev pub max_pending : ℕ
max_pending = 32

-- The value under a key, or else another one: `map.get(key) ?? other`.
abbrev pub or_else {ℓ} : {A : Type ℓ} → Option A → A → A
or_else none a = a
or_else (some b) a = b

-- An optional string that is present and not empty.
abbrev pub truthy : Option Text → Bool
truthy none = false
truthy (some t) = not (is_empty t)

unfoldable pub panel_discrete : Discrete (Text × Text)
unfolding ℕ_discrete
panel_discrete = hlevel ℕ_discrete

abbrev pub evict_oldest {ℓ} : {K V : Type ℓ} → Discrete K → List (K × V) → List (K × V)
evict_oldest d [] = []
evict_oldest d ((k, v) ∷ m) = Dict.delete d k ((k, v) ∷ m)

unfoldable pub remember_report : NotificationDelivery → Manager → Manager
remember_report d s =
    let reports = Dict.set panel_discrete (d.name, d.pane_id) d s.ready_reports in
    record s {
      ready_reports =
          if ltb max_tracked (length reports) then evict_oldest panel_discrete reports else reports;
    }

unfoldable pub completion_identity : Env → Text → ExternalResult → Text
completion_identity env name r = elim r.completion_id [
  | some id ↦ id
  | none ↦ concat (
      codes "legacy:"
      ∷ name
      ∷ codes ":"
      ∷ env.show r.sent_at
      ∷ codes ":"
      ∷ state_text r.status
      ∷ [])
]

abbrev pub evict_oldest_key : List Text → List Text
evict_oldest_key [] = []
evict_oldest_key (k ∷ ks) = KeySet.delete text_discrete k (k ∷ ks)

unfoldable pub remember_delivered_arm : Text → Manager → Manager
remember_delivered_arm arm s =
    let ids = KeySet.add text_discrete arm s.delivered_arm_ids in
    record s {
      delivered_arm_ids = if ltb max_tracked (length ids) then evict_oldest_key ids else ids;
    }

unfoldable pub remember_delivered_arms : List Text → Manager → Manager
remember_delivered_arms [] s = s
remember_delivered_arms (a ∷ more) s = remember_delivered_arms more (remember_delivered_arm a s)

abbrev pub without_watcher : Text → Manager → Manager
without_watcher key s = record s { watchers = Dict.delete text_discrete key s.watchers }

-- `result.armId && slot.acceptedArmIds.size > 0 && !slot.acceptedArmIds.has(result.armId)`
unfoldable pub is_foreign_arm : Option Text → List Text → Bool
is_foreign_arm none accepted = false
is_foreign_arm (some arm) accepted =
    truthy (some arm) && not (is_empty accepted) && not (KeySet.has text_discrete arm accepted)

abbrev pub remember_if_some : Option Text → Manager → Manager
remember_if_some none s = s
remember_if_some (some arm) s = if truthy (some arm) then remember_delivered_arm arm s else s

-- What `processExternalResult` does with a result: it drops it, keeps it for a later watcher, or
-- hands it to the watcher's slot.
pub data Verdict : Type 0 where
  drops queues : Verdict
  takes : WatcherSlot → Verdict

module _ (env : Env) where
  -- The end of `processCompletion` for a key whose group identifier leads to this group, if any.
  unfoldable pub file_in_group : NotificationDelivery → Option CompletionGroup → Manager → Manager
  file_in_group d none s =
      send (individual_message d)
        (record s { key_to_group = Dict.delete text_discrete d.key s.key_to_group })
  file_in_group d (some g) s =
      let g' = record g { completed = Dict.set text_discrete d.key d g.completed } in
      maybe_deliver_completed_group env g' (put_group g' s)

  unfoldable pub file_report : NotificationDelivery → Option ℕ → Manager → Manager
  file_report d none s = send (individual_message d) s
  file_report d (some id) s = file_in_group d (Dict.get ℕ_discrete id s.groups) s

  unfoldable pub process_completion : NotificationDelivery → Manager → Manager
  process_completion d s =
      let s' = without_watcher d.key (finalize_current_arm_batch_for d.key (remember_report d s)) in
      file_report d (Dict.get text_discrete d.key s'.key_to_group) s'

  abbrev pub same_completion : Text → Text → ExternalResult → Bool
  same_completion key identity r =
      pick (text_discrete (completion_identity env key r) identity) true false

  abbrev pub pending_for : Text → Manager → List ExternalResult
  pending_for key s = or_else (Dict.get text_discrete key s.pending_external) []

  unfoldable pub enqueue_external : Text → ExternalResult → Manager → Manager
  enqueue_external key r s = record s {
    pending_external =
        Dict.set text_discrete key (take_last max_pending (pending_for key s ++ r ∷ []))
          s.pending_external;
  }

  unfoldable pub queue_pending_external : Text → ExternalResult → Manager → Manager
  queue_pending_external key r s =
      if some_of (same_completion key (completion_identity env key r)) (pending_for key s)
      then s
      else enqueue_external key r s

  unfoldable pub external_delivery : Text → WatcherSlot → ExternalResult → NotificationDelivery
  external_delivery name slot r =
      let (text, truncated) = truncate_for_model env r.final_message env.max_lines in
      external_delivery_for name
        (record {
          completion_id = none;
          name = slot.name;
          pane_id = slot.pane_id;
          summary_source = slot.summary_source;
          report_kind = if truncated then ReportKind.sample else ReportKind.final;
          state = r.status;
          final_message = text;
        })
        (completion_identity env name r)

  -- The end of `processExternalResult`: the slot takes the result.
  unfoldable pub accept_result : Text → WatcherSlot → ExternalResult → Manager → Manager
  accept_result name slot r s =
      let marked = record s {
        delivered_completion_ids =
            KeySet.add text_discrete (completion_identity env name r) s.delivered_completion_ids;
      } in
      process_completion (external_delivery name slot r)
        (abort slot.controller (remember_if_some r.arm_id marked))

  -- The guards of `processExternalResult`, in its order.
  unfoldable pub judge : Text → ExternalResult → Manager → Verdict
  judge name r s =
      if KeySet.has text_discrete (completion_identity env name r) s.delivered_completion_ids
      then Verdict.drops
      else elim (Dict.get text_discrete name s.watchers) [
        | none ↦ Verdict.queues
        | some slot ↦
            if ltb r.sent_at slot.armed_at
            then Verdict.drops
            else if is_foreign_arm r.arm_id slot.accepted_arm_ids
            then Verdict.queues
            else Verdict.takes slot
      ]

  unfoldable pub follow : Verdict → Text → ExternalResult → Manager → Manager × Bool
  follow Verdict.drops name r s = (s, false)
  follow Verdict.queues name r s = (queue_pending_external name r s, false)
  follow (Verdict.takes slot) name r s = (accept_result name slot r s, true)

  unfoldable pub process_external_result : Text → ExternalResult → Manager → Manager × Bool
  process_external_result name r s = follow (judge name r s) name r s
