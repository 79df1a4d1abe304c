-- ===== src/Notify/Delivery.antt =====
-- Where `processCompletion` and `onGroupTimeout` of herdr-subagent/notifications.ts send the report
-- of a completed subagent.
use pi_dotfiles.Prelude.{
  ℕ, ◌≡◌, ◌≢◌, ◌<◌, true, false, if◌then◌else◌, none, some, List, [], ◌∷◌, ◌++◌, Text, arith,
  text_discrete, ℕ_discrete, length, is_empty, map, keep, All, ◌∙◌, ◌+◌,
}
use pi_dotfiles.Prelude.Dict
use pi_dotfiles.Prelude.Dict.{is_some}
use pi_dotfiles.Prelude.KeySet
use pi_dotfiles.Notify.Types.{NotificationDelivery, CompletionGroup, PendingArmBatch, Env}
use pi_dotfiles.Notify.Envelope.{individual_message, grouped_message}
use pi_dotfiles.Notify.State.{Manager, finalize_current_arm_batch_for}
use pi_dotfiles.Notify.Groups.{
  records_of, delivery_records_for, remaining_keys, maybe_deliver_completed_group, on_group_timeout,
}
use pi_dotfiles.Notify.Report.{remember_report, file_in_group, file_report, process_completion}
use pi_dotfiles.Notify.Members.{
  with_report, stored_report, report_of, IsWellFormed, IsRemaining, delivery_records-stored,
  delivery_records-with_report, keep_reported, length-reported-le, remaining_keys-IsRemaining,
  length-remaining,
}

pub length-set-pos :
    (k : Text) (d : NotificationDelivery) (m : List (Text × NotificationDelivery))
    → 0 < length (Dict.set text_discrete k d m)
unfolding Dict.set
length-set-pos k d [] = omega arith
length-set-pos k d ((j, e) ∷ m) = ground arith

records-ne-nil :
    (d : NotificationDelivery) (ks : List Text) (m : List (Text × NotificationDelivery))
    → KeySet.has text_discrete d.key ks ≡ true
    → Dict.get text_discrete d.key m ≡ some d
    → records_of ks m ≢ []
unfolding KeySet.has records_of
records-ne-nil d [] m h e = cc
records-ne-nil d (k ∷ ks) m h e = ground (arith, records-ne-nil d ks m)

module _ (env : Env) (d : NotificationDelivery) (s : Manager) where
  -- A subagent that is alone in its batch and in no group is reported at once, in a message of its
  -- own, and its batch ends together with its timer.
  pub lone_report :
      (b : PendingArmBatch)
      → s.current_arm_batch ≡ some b
      → b.keys ≡ d.key ∷ []
      → Dict.get text_discrete d.key s.key_to_group ≡ none
      → let s' = process_completion env d s in
        (s'.sent ≡ s.sent ++ individual_message d ∷ [])
        × (s'.current_arm_batch ≡ none)
        × (Dict.get ℕ_discrete b.timeout s'.timers ≡ none)
  unfolding process_completion remember_report finalize_current_arm_batch_for file_report KeySet.has
  lone_report b current alone free =
      ground (arith, Dict.get-delete_self ℕ_discrete b.timeout s.timers)

  module _ (g : CompletionGroup) where
    -- The report after which all members of a group have one sends one message that leaves nothing
    -- pending, with the report of each member in the order of the members, and the group is gone. The
    -- keys of the members and of the reports before are sets, the latter of members, and the report
    -- is one of a member.
    pub last_report :
        IsWellFormed g
        → KeySet.has text_discrete d.key g.member_keys ≡ true
        → All (λ k. is_some (report_of d g k) ≡ true) g.member_keys
        → let s' = file_in_group env d (some g) s in
          (ds : List NotificationDelivery) × (s'.sent
            ≡ s.sent ++ grouped_message env ds false 0 ∷ [])
          × (map some ds ≡ map (report_of d g) g.member_keys)
          × (Dict.get ℕ_discrete g.id s'.groups ≡ none)
    unfolding file_in_group maybe_deliver_completed_group
    last_report sets member all =
        let g' = with_report d g in
        let full = length-reported-le d g sets all in
        let some_records =
          records-ne-nil d g.member_keys g'.completed member
            (Dict.get-set_self text_discrete d.key d g.completed) in
        (
          delivery_records_for g',
          ground (arith, full, some_records, Dict.get-set_self ℕ_discrete g.id g' s.groups),
          delivery_records-with_report d g ∙ keep_reported d g g.member_keys all,
          ground (
            arith,
            full,
            some_records,
            Dict.get-set_self ℕ_discrete g.id g' s.groups,
            Dict.get-delete_self ℕ_discrete g.id (Dict.set ℕ_discrete g.id g' s.groups),
          ),
        )

    -- A group timer that fires while no member has completed leaves the group with the handle of the
    -- timer that is over. The next report that does not complete the group then neither is sent nor
    -- starts a timer.
    pub stale_timer :
        (h : ℕ)
        → Dict.get ℕ_discrete g.id s.groups ≡ some g
        → g.completed ≡ []
        → g.timeout ≡ some h
        → 1 < length g.member_keys
        → let s1 = on_group_timeout env g.id s in
          let s2 = file_in_group env d (some g) s1 in
          (s1 ≡ s)
          × (s2.sent ≡ s.sent)
          × (s2.timers ≡ s.timers)
          × (Dict.get text_discrete d.key (with_report d g).completed ≡ some d)
          × (Dict.get ℕ_discrete g.id s2.groups ≡ some (with_report d g))
    unfolding file_in_group maybe_deliver_completed_group on_group_timeout Dict.set
    stale_timer h here empty old more = ground (
      arith,
      Dict.get-set_self text_discrete d.key d g.completed,
      Dict.get-set_self ℕ_discrete g.id (with_report d g) s.groups,
    )

module _ (env : Env) (s : Manager) (g : CompletionGroup) where
  -- When the timer of a group with reports fires, one message sends those of its members, in the order
  -- of the members and with the number of those that remain: exactly the members without a report. The group goes on
  -- with just these, as stragglers without a report and a timer, or is gone if there are none.
  pub group_timeout :
      Dict.get ℕ_discrete g.id s.groups ≡ some g
      → g.completed ≢ []
      → let s' = on_group_timeout env g.id s in
        (ds : List NotificationDelivery) × (rest : List Text) × (s'.sent
          ≡ s.sent ++ grouped_message env ds true (length rest) ∷ [])
        × (map some ds ≡ keep is_some (map (stored_report g) g.member_keys))
        × IsRemaining g rest
        × (length rest + length ds ≡ length g.member_keys)
        × (Dict.get ℕ_discrete g.id s'.groups ≡ (
            if is_empty rest
            then none
            else some (record g {
              member_keys = rest;
              completed = [];
              timeout = none;
              is_straggler = true;
            })))
  unfolding on_group_timeout
  group_timeout here some_completed =
      let g' = record g {
        member_keys = remaining_keys g;
        completed = [];
        timeout = none;
        is_straggler = true;
      } in
      (
        delivery_records_for g,
        remaining_keys g,
        ground arith,
        delivery_records-stored g,
        remaining_keys-IsRemaining g,
        length-remaining g,
        ground (
          arith,
          Dict.get-set_self ℕ_discrete g.id g' s.groups,
          Dict.get-delete_self ℕ_discrete g.id (Dict.set ℕ_discrete g.id g' s.groups),
        ),
      )
