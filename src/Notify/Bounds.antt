-- ===== src/Notify/Bounds.antt =====
-- The sizes of what the manager of herdr-subagent/notifications.ts remembers of past deliveries.
use pi_dotfiles.Prelude.{
  ℕ, suc, ◌≤◌, ◌≡◌, ◌≢◌, ◌⊎◌, refl, List, [], ◌∷◌, ◌++◌, Text, arith, length, inl, inr,
  text_discrete, All, length-take_last-le,
}
use pi_dotfiles.Prelude.Dict
use pi_dotfiles.Prelude.KeySet
use pi_dotfiles.Notify.Types.{ExternalResult, NotificationDelivery, Env}
use pi_dotfiles.Notify.State.{Manager, Options, initial}
use pi_dotfiles.Notify.Report.{
  remember_report, remember_delivered_arm, enqueue_external, pending_for, evict_oldest,
  evict_oldest_key, panel_discrete,
}
use pi_dotfiles.Notify.Manager.{cancel_all, Event, step, run}
use pi_dotfiles.Notify.Stable.{IsStable}
use pi_dotfiles.Notify.Stable.Events.{step-keeps}
use pi_dotfiles.Notify.Memory.{Memory, memory}

-- At most 256 delivered arms and 256 reports, and at most 32 results for each waiting name.
pub record IsBounded (m : Memory) : Type 0 where
  pub arms : length m.arms ≤ 256
  pub reports : length m.reports ≤ 256
  pub pending : All (λ e. length e.1 ≤ 32) m.pending

length-evict-le {ℓ} :
    {K V : Type ℓ} (d : Discrete K) (m : List (K × V)) (n : ℕ)
    → length m ≤ suc n
    → length (evict_oldest d m) ≤ n
length-evict-le d [] n h = omega arith
length-evict-le d ((k, v) ∷ m) n h = omega (arith, Dict.length-delete_head-lt d k v m)

length-evict_key-le :
    (ks : List Text) (n : ℕ) → length ks ≤ suc n → length (evict_oldest_key ks) ≤ n
length-evict_key-le [] n h = omega arith
length-evict_key-le (k ∷ ks) n h = omega (arith, KeySet.length-delete_head-lt text_discrete k ks)

remember_report-IsBounded :
    (d : NotificationDelivery) (s : Manager)
    → IsBounded (memory s)
    → IsBounded (memory (remember_report d s))
unfolding remember_report
remember_report-IsBounded d s b =
    let grown = Dict.set panel_discrete (d.name, d.pane_id) d s.ready_reports in
    let l : length grown ≤ suc (length s.ready_reports) =
      Dict.length-set-le panel_discrete (d.name, d.pane_id) d s.ready_reports in
    let b' = b.reports in ground (arith, length-evict-le panel_discrete grown 256)

remember_arm-IsBounded :
    (a : Text) (s : Manager)
    → IsBounded (memory s)
    → IsBounded (memory (remember_delivered_arm a s))
unfolding remember_delivered_arm
remember_arm-IsBounded a s b =
    let grown = KeySet.add text_discrete a s.delivered_arm_ids in
    let l : length grown ≤ suc (length s.delivered_arm_ids) =
      KeySet.length-add-le text_discrete a s.delivered_arm_ids in
    ground (arith, length-evict_key-le grown 256)

module _ (env : Env) where
  enqueue-IsBounded :
      (k : Text) (r : ExternalResult) (s : Manager)
      → IsBounded (memory s)
      → IsBounded (memory (enqueue_external env k r s))
  unfolding enqueue_external
  enqueue-IsBounded k r s b = record {
    arms = b.arms;
    reports = b.reports;
    pending =
        Dict.set-All text_discrete (λ e. length e.1 ≤ 32) k _ s.pending_external
          (λ j. length-take_last-le 32 (pending_for env k s ++ r ∷ [])) b.pending;
  }

  IsBounded-IsStable : IsStable env IsBounded
  IsBounded-IsStable = record {
    watcher = λ m w b. record { arms = b.arms; reports = b.reports; pending = b.pending };
    report = remember_report-IsBounded;
    arm = remember_arm-IsBounded;
    enqueue = enqueue-IsBounded;
    forget = λ k m b. record {
      arms = b.arms;
      reports = b.reports;
      pending = Dict.delete-All text_discrete (λ e. length e.1 ≤ 32) k m.pending b.pending;
    };
    complete = λ id m b. record { arms = b.arms; reports = b.reports; pending = b.pending };
  }

  is_cancels_all : (e : Event) → (e ≡ Event.cancels_all) ⊎ (e ≢ Event.cancels_all)
  is_cancels_all Event.cancels_all = inl refl
  is_cancels_all (Event.begins _) = inr (cc)
  is_cancels_all (Event.releases _) = inr (cc)
  is_cancels_all (Event.arms _ _) = inr (cc)
  is_cancels_all (Event.accepts _ _) = inr (cc)
  is_cancels_all (Event.delivers _ _) = inr (cc)
  is_cancels_all (Event.cancels _) = inr (cc)
  is_cancels_all (Event.acknowledges _ _ _ _) = inr (cc)
  is_cancels_all (Event.fires _) = inr (cc)
  is_cancels_all (Event.settles _ _ _ _) = inr (cc)
  is_cancels_all (Event.fails _ _) = inr (cc)

  cancel_all-IsBounded : (s : Manager) → IsBounded (memory (step env Event.cancels_all s))
  unfolding step cancel_all
  cancel_all-IsBounded s = omega arith

  run-IsBounded :
      (es : List Event) (s : Manager) → IsBounded (memory s) → IsBounded (memory (run env es s))
  unfolding run
  run-IsBounded [] s b = b
  run-IsBounded (e ∷ es) s b = run-IsBounded es (step env e s) (elim (is_cancels_all e) [
    | inl same ↦ rw same (cancel_all-IsBounded s)
    | inr other ↦ step-keeps env IsBounded IsBounded-IsStable e s other b
  ])

  -- After any history of a new manager at most 256 delivered arms and at most 256 reports are
  -- remembered, and for each name at most 32 results wait.
  pub run-initial-IsBounded :
      (o : Options) (es : List Event) → IsBounded (memory (run env es (initial o)))
  unfolding initial
  run-initial-IsBounded o es = run-IsBounded es (initial o) (omega arith)
