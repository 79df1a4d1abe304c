-- ===== src/Notify/Stable.antt =====
-- Predicates of the memory of the manager of herdr-subagent/notifications.ts, and the few places
-- which write to it.
pub mod Events
use pi_dotfiles.Prelude.{
  ℕ, suc, ◌≤◌, ◌+◌, ◌≡◌, refl, sym, subst, ◌∙◌, take_last, Bool, true, false, Option, none, some,
  List, [], ◌∷◌, ◌++◌, Text, arith, length, is_empty, Bool-cases, Option-cases, inl, inr,
  text_discrete, ℕ_discrete, All, length-take_last-le,
}
use pi_dotfiles.Prelude.Dict
use pi_dotfiles.Prelude.KeySet
use pi_dotfiles.Notify.Types.{
  WatcherSlot, ExternalResult, NotificationDelivery, PendingArmBatch, CompletionGroup, Env,
  ArmedNotification, WatchCompletion,
}
use pi_dotfiles.Notify.State.{Manager, abort, Options, initial, remove_key_from_current_batch}
use pi_dotfiles.Notify.Groups.{remove_key_from_group}
use pi_dotfiles.Notify.Report.{
  remember_report, remember_delivered_arm, remember_delivered_arms, process_completion,
  accept_result, remember_if_some, without_watcher, completion_identity, enqueue_external,
  pending_for, Verdict, judge, follow, queue_pending_external, process_external_result,
  evict_oldest, evict_oldest_key, panel_discrete, max_pending, or_else,
}
use pi_dotfiles.Notify.Watchers.{
  watcher_settled, watcher_failed, begin_batch_member, release_batch_member, queue_all,
  replay_pending, arm, settle,
}
use pi_dotfiles.Notify.Manager.{
  accept_arm, cancel_all, cancel_key, cancel_keys, cancel, deliver_external, fire, Event, step, run,
}
use pi_dotfiles.Notify.Memory.{
  Memory, memory, memory-finalize_current, memory-remove_from_batch, memory-add_to_batch,
  memory-process_completion, memory-maybe_deliver, memory-group_timeout, memory-remove_from_group,
}

abbrev pub forgotten : Text → Memory → Memory
forgotten key m = record m { pending = Dict.delete text_discrete key m.pending }

abbrev pub marked : Text → Memory → Memory
marked id m = record m { completions = KeySet.add text_discrete id m.completions }

-- What has to be shown of a predicate: a field for each kind of write.
pub record IsStable (env : Env) (P : Memory → Type 0) : Type 0 where
  pub watcher : (m : Memory) (w : List (Text × WatcherSlot)) → P m → P (record m { watchers = w })
  pub report :
      (d : NotificationDelivery) (s : Manager) → P (memory s) → P (memory (remember_report d s))
  pub arm : (a : Text) (s : Manager) → P (memory s) → P (memory (remember_delivered_arm a s))
  pub enqueue :
      (k : Text) (r : ExternalResult) (s : Manager)
      → P (memory s)
      → P (memory (enqueue_external env k r s))
  pub forget : (k : Text) (m : Memory) → P m → P (forgotten k m)
  pub complete : (id : Text) (m : Memory) → P m → P (marked id m)

module _ (env : Env) (P : Memory → Type 0) (stable : IsStable env P) where
  remember_arms-keeps :
      (ids : List Text) (s : Manager) → P (memory s) → P (memory (remember_delivered_arms ids s))
  unfolding remember_delivered_arms
  remember_arms-keeps [] s b = b
  remember_arms-keeps (a ∷ more) s b =
      remember_arms-keeps more (remember_delivered_arm a s) (stable.arm a s b)

  process_completion-keeps :
      (d : NotificationDelivery) (s : Manager)
      → P (memory s)
      → P (memory (process_completion env d s))
  process_completion-keeps d s b =
      rw (memory-process_completion env d s)
        (stable.watcher (memory (remember_report d s)) _ (stable.report d s b))

  pub queue-keeps :
      (k : Text) (r : ExternalResult) (s : Manager)
      → P (memory s)
      → P (memory (queue_pending_external env k r s))
  unfolding queue_pending_external
  queue-keeps k r s b = ground (arith, stable.enqueue k r s b)

  remember_if_some-keeps :
      (a : Option Text) (s : Manager) → P (memory s) → P (memory (remember_if_some a s))
  remember_if_some-keeps none s b = b
  remember_if_some-keeps (some []) s b = b
  remember_if_some-keeps (some (c ∷ a)) s b = stable.arm (c ∷ a) s b

  -- The memory in which the identity of the result is marked is what a taken result builds on.
  pub accept_result-marks :
      (name : Text) (slot : WatcherSlot) (r : ExternalResult) (s : Manager)
      → P (marked (completion_identity env name r) (memory s))
      → P (memory (accept_result env name slot r s))
  unfolding accept_result
  accept_result-marks name slot r s b =
      process_completion-keeps _ (abort slot.controller (remember_if_some r.arm_id _))
        (remember_if_some-keeps r.arm_id _ b)

  accept_result-keeps :
      (name : Text) (slot : WatcherSlot) (r : ExternalResult) (s : Manager)
      → P (memory s)
      → P (memory (accept_result env name slot r s))
  accept_result-keeps name slot r s b =
      accept_result-marks name slot r s
        (stable.complete (completion_identity env name r) (memory s) b)

  follow-keeps :
      (v : Verdict) (name : Text) (r : ExternalResult) (s : Manager)
      → P (memory s)
      → P (memory (follow env v name r s).0)
  unfolding follow
  follow-keeps Verdict.drops name r s b = b
  follow-keeps Verdict.queues name r s b = queue-keeps name r s b
  follow-keeps (Verdict.takes slot) name r s b = accept_result-keeps name slot r s b

  pub process_external-keeps :
      (name : Text) (r : ExternalResult) (s : Manager)
      → P (memory s)
      → P (memory (process_external_result env name r s).0)
  unfolding process_external_result
  process_external-keeps name r s = follow-keeps (judge env name r s) name r s

  -- What `catch`, `releaseBatchMember`, `arm` and `cancelKey` do with a key.
  pub drop_key-keeps :
      (key : Text) (s : Manager)
      → P (memory s)
      → P (memory (remove_key_from_group env key (remove_key_from_current_batch key s)))
  drop_key-keeps key s b =
      rw
        (
          memory-remove_from_group env key (remove_key_from_current_batch key s),
          memory-remove_from_batch key s,
        )
        b

  settle-keeps :
      (slot : WatcherSlot) (n : ArmedNotification) (c : WatchCompletion) (s : Manager)
      → P (memory s)
      → P (memory (settle env slot n c s))
  unfolding settle
  settle-keeps slot n (WatchCompletion.result [] r) s b = b
  settle-keeps slot n (WatchCompletion.result (c ∷ name) r) s b =
      ground (arith, process_external-keeps (c ∷ name) r s b)
  settle-keeps slot n (WatchCompletion.notification w) s b =
      process_completion-keeps _ (remember_delivered_arms slot.accepted_arm_ids s)
        (remember_arms-keeps slot.accepted_arm_ids s b)

  pub settled-keeps :
      (key : Text) (controller : ℕ) (n : ArmedNotification) (c : WatchCompletion) (s : Manager)
      → P (memory s)
      → P (memory (watcher_settled env key controller n c s))
  unfolding watcher_settled
  settled-keeps key controller n c s b =
      elim (Option-cases (Dict.get text_discrete key s.watchers)) [
        | inl e ↦ rw (e, watcher_settled) b
        | inr (slot, e) ↦ rw (e, watcher_settled) (ground (arith, settle-keeps slot n c s b))
      ]
