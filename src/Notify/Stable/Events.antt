-- ===== src/Notify/Stable/Events.antt =====
-- The events of the manager of herdr-subagent/notifications.ts, for predicates of its memory.
use pi_dotfiles.Prelude.{
  ℕ, ◌≢◌, refl, Bool, true, false, Option, none, some, List, [], ◌∷◌, Text, arith, Option-cases,
  Bool-cases, inl, inr, text_discrete, ℕ_discrete, All,
}
use pi_dotfiles.Prelude.Dict
use pi_dotfiles.Notify.Types.{
  WatcherSlot, ExternalResult, NotificationDelivery, Env, ArmedNotification,
}
use pi_dotfiles.Notify.State.{Manager, Callback, clear_timeout, abort, add_key_to_current_batch}
use pi_dotfiles.Notify.Report.{without_watcher, queue_pending_external, process_external_result}
use pi_dotfiles.Notify.Watchers.{
  watcher_failed, begin_batch_member, release_batch_member, queue_all, replay_pending, arm,
  replace_watcher, install_watcher, is_reserved, batch_unless,
}
use pi_dotfiles.Notify.Inspection.{is_shown_in, consume, acknowledge}
use pi_dotfiles.Notify.Manager.{
  accept_arm, matching_keys, drop_watcher, run_callback, cancel_key, cancel_keys, cancel,
  deliver_external, fire, Event, step, run,
}
use pi_dotfiles.Notify.Memory.{
  Memory, memory, memory-remove_from_group, memory-finalize, memory-add_to_batch,
  memory-group_timeout,
}
use pi_dotfiles.Notify.Stable.{
  IsStable, queue-keeps, settled-keeps, process_external-keeps, drop_key-keeps,
}

module _ (env : Env) (P : Memory → Type 0) (stable : IsStable env P) where
  failed-keeps :
      (key : Text) (controller : ℕ) (s : Manager)
      → P (memory s)
      → P (memory (watcher_failed env key controller s))
  unfolding watcher_failed
  failed-keeps key controller s b = ground (
    arith,
    drop_key-keeps env P stable key (without_watcher key s) (stable.watcher (memory s) _ b),
  )

  released-keeps :
      (name : Text) (s : Manager) → P (memory s) → P (memory (release_batch_member env name s))
  unfolding release_batch_member
  released-keeps name s b = ground (
    arith,
    drop_key-keeps env P stable name
        (record s { pending_external = Dict.delete text_discrete name s.pending_external })
        (stable.forget name (memory s) b),
  )

  queue_all-keeps :
      (key : Text) (rs : List ExternalResult) (s : Manager)
      → P (memory s)
      → P (memory (queue_all env key rs s))
  unfolding queue_all
  queue_all-keeps key [] s b = b
  queue_all-keeps key (r ∷ rs) s b =
      queue_all-keeps key rs (queue_pending_external env key r s)
        (queue-keeps env P stable key r s b)

  replay-keeps :
      (key : Text) (rs : List ExternalResult) (s : Manager)
      → P (memory s)
      → P (memory (replay_pending env key rs s))
  unfolding replay_pending
  replay-keeps key [] s b = b
  replay-keeps key (r ∷ rs) s b =
      let b' = process_external-keeps env P stable key r s b in
      let s' = (process_external_result env key r s).0 in
      ground (arith, queue_all-keeps key rs s' b', replay-keeps key rs s' b')

  replace-keeps : (key : Text) (s : Manager) → P (memory s) → P (memory (replace_watcher env key s))
  unfolding replace_watcher
  replace-keeps key s b = elim (Option-cases (Dict.get text_discrete key s.watchers)) [
    | inl e ↦ rw (e, replace_watcher) b
    | inr (old, e) ↦
        rw (e, replace_watcher)
          (drop_key-keeps env P stable key (without_watcher key (abort old.controller s))
            (stable.watcher (memory s) _ b))
  ]

  install-keeps :
      (n : ArmedNotification) (now : ℕ) (s : Manager)
      → P (memory s)
      → P (memory (install_watcher env n now s))
  unfolding install_watcher
  install-keeps n now s b = stable.watcher (memory s) _ b

  add_member-keeps :
      (key : Text) (s : Manager) → P (memory s) → P (memory (add_key_to_current_batch key s))
  add_member-keeps key s b = rw (memory-add_to_batch key s) b

  batch_unless-keeps :
      (reserved : Bool) (key : Text) (s : Manager)
      → P (memory s)
      → P (memory (batch_unless env reserved key s))
  batch_unless-keeps true key s b = b
  batch_unless-keeps false key s b = rw (memory-add_to_batch key s) b

  arm-keeps :
      (n : ArmedNotification) (now : ℕ) (s : Manager) → P (memory s) → P (memory (arm env n now s))
  unfolding arm
  arm-keeps n now s b =
      let installed = install_watcher env n now (replace_watcher env n.name s) in
      let i = install-keeps n now (replace_watcher env n.name s) (replace-keeps n.name s b) in
      let batched = batch_unless env (is_reserved env n.name s) n.name installed in
      replay-keeps n.name _ _ (
        stable.forget n.name (memory batched)
          (batch_unless-keeps (is_reserved env n.name s) n.name installed i))

  accept_arm-keeps :
      (target arm_id : Text) (s : Manager)
      → P (memory s)
      → P (memory (accept_arm target arm_id s).0)
  unfolding accept_arm
  accept_arm-keeps target arm_id s b = stable.watcher (memory s) _ b

  drop_watcher-keeps :
      (key : Text) (o : Option WatcherSlot) (s : Manager)
      → P (memory s)
      → P (memory (drop_watcher key o s))
  drop_watcher-keeps key none s b = b
  drop_watcher-keeps key (some slot) s b = stable.watcher (memory s) _ b

  cancel_key-keeps : (key : Text) (s : Manager) → P (memory s) → P (memory (cancel_key env key s))
  unfolding cancel_key
  cancel_key-keeps key s b =
      let dropped = drop_watcher key (Dict.get text_discrete key s.watchers) s in
      drop_key-keeps env P stable key
        (record dropped {
          pending_external = Dict.delete text_discrete key dropped.pending_external;
        })
        (stable.forget key (memory dropped)
          (drop_watcher-keeps key (Dict.get text_discrete key s.watchers) s b))

  cancel_keys-keeps :
      (keys : List Text) (s : Manager) → P (memory s) → P (memory (cancel_keys env keys s))
  unfolding cancel_keys
  cancel_keys-keeps [] s b = b
  cancel_keys-keeps (k ∷ ks) s b =
      cancel_keys-keeps ks (cancel_key env k s) (cancel_key-keeps k s b)

  cancel-keeps :
      (target : Option Text) (s : Manager) → P (memory s) → P (memory (cancel env target s))
  unfolding cancel
  cancel-keeps none s b = b
  cancel-keeps (some []) s b = b
  cancel-keeps (some (c ∷ t)) s b =
      stable.forget (c ∷ t) (memory (cancel_keys env (matching_keys (c ∷ t) s) s))
        (cancel_keys-keeps (matching_keys (c ∷ t) s) s b)

  callback-keeps : (f : Callback) (s : Manager) → P (memory s) → P (memory (run_callback env f s))
  unfolding run_callback
  callback-keeps Callback.idle s b = b
  callback-keeps (Callback.group_join id) s b = rw (memory-group_timeout env id s) b
  callback-keeps (Callback.batch_window id) s b = elim (Option-cases s.current_arm_batch) [
    | inl e ↦ rw (e, run_callback) b
    | inr (a, e) ↦ rw (e, run_callback) (ground (arith, memory-finalize a s))
  ]

  fire-keeps : (h : ℕ) (s : Manager) → P (memory s) → P (memory (fire env h s))
  unfolding fire
  fire-keeps h s b = elim (Option-cases (Dict.get ℕ_discrete h s.timers)) [
    | inl e ↦ rw (e, fire) b
    | inr (t, e) ↦ rw (e, fire) (callback-keeps t.callback (clear_timeout h s) b)
  ]

  consume-keeps :
      (d : NotificationDelivery) (s : Manager) → P (memory s) → P (memory (consume env d s))
  unfolding consume
  consume-keeps d s b = ground (arith, memory-remove_from_group env d.key s)

  acknowledge-keeps :
      (available : List NotificationDelivery) (name pane_id text : Text) (s : Manager)
      → P (memory s)
      → P (memory (acknowledge env available name pane_id text s).1)
  unfolding acknowledge
  acknowledge-keeps [] name pane_id text s b = b
  acknowledge-keeps (d ∷ available) name pane_id text s b =
      elim (Bool-cases (is_shown_in env name pane_id text d)) [
        | inl e ↦
            rw (e, acknowledge)
              (acknowledge-keeps available name pane_id text (consume env d s)
                (consume-keeps d s b))
        | inr e ↦ rw (e, acknowledge) (acknowledge-keeps available name pane_id text s b)
      ]

  -- Every event but `cancelAll` keeps the predicate.
  pub step-keeps :
      (e : Event) (s : Manager) → e ≢ Event.cancels_all → P (memory s) → P (memory (step env e s))
  unfolding step deliver_external begin_batch_member
  step-keeps (Event.begins name) s _ b = rw (memory-add_to_batch name s) b
  step-keeps (Event.releases name) s _ b = released-keeps name s b
  step-keeps (Event.arms n now) s _ b = arm-keeps n now s b
  step-keeps (Event.accepts target arm_id) s _ b = accept_arm-keeps target arm_id s b
  step-keeps (Event.delivers name r) s _ b = process_external-keeps env P stable name r s b
  step-keeps (Event.cancels target) s _ b = cancel-keeps target s b
  step-keeps Event.cancels_all s other b = absurd (other refl)
  step-keeps (Event.acknowledges available name pane_id text) s _ b =
      acknowledge-keeps available name pane_id text s b
  step-keeps (Event.fires h) s _ b = fire-keeps h s b
  step-keeps (Event.settles key controller n c) s _ b =
      settled-keeps env P stable key controller n c s b
  step-keeps (Event.fails key controller) s _ b = failed-keeps key controller s b

  pub run-keeps :
      (es : List Event) (s : Manager)
      → All (λ e. e ≢ Event.cancels_all) es
      → P (memory s)
      → P (memory (run env es s))
  unfolding run
  run-keeps [] s _ b = b
  run-keeps (e ∷ es) s (other, others) b =
      run-keeps es (step env e s) others (step-keeps e s other b)
