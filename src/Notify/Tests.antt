-- ===== src/Notify/Tests.antt =====
-- Runs of the manager, and the theorems of this component at concrete managers.
use pi_dotfiles.Prelude.{
  ℕ, ◌≡◌, refl, true, false, Option, none, some, List, [], ◌∷◌, ◌++◌, Text, codes, arith,
  text_discrete, ℕ_discrete, map, length, is_empty, if◌then◌else◌, ◌+◌,
}
use pi_dotfiles.Prelude.Dict
use pi_dotfiles.Prelude.KeySet
use pi_dotfiles.Notify.Types.{
  ArmedNotification, CompletionSource, NotificationState, NotificationDelivery, CompletionGroup,
  ExternalResult, PendingArmBatch, Env, Message, Details, Observed, ReportKind,
}
use pi_dotfiles.Notify.Xml.{escape_xml_text, decode_xml_text}
use pi_dotfiles.Notify.Xml.RoundTrip.{decode-escape}
use pi_dotfiles.Notify.Xml.Markup.{IsPlain, escape-IsPlain}
use pi_dotfiles.Notify.Envelope
use pi_dotfiles.Notify.Envelope.{individual_message, grouped_message}
use pi_dotfiles.Notify.State
use pi_dotfiles.Notify.State.{Manager, Options, Callback, initial}
use pi_dotfiles.Notify.Groups
use pi_dotfiles.Notify.Groups.{on_group_timeout}
use pi_dotfiles.Notify.Report
use pi_dotfiles.Notify.Report.{process_external_result, process_completion, file_in_group}
use pi_dotfiles.Notify.Watchers
use pi_dotfiles.Notify.Manager
use pi_dotfiles.Notify.Manager.{Event, run, step}
use pi_dotfiles.Notify.Memory.{memory}
use pi_dotfiles.Notify.Bounds.{IsBounded, run-initial-IsBounded}
use pi_dotfiles.Notify.Once.{taken_once}
use pi_dotfiles.Notify.Members.{with_report, IsWellFormed, IsRemaining}
use pi_dotfiles.Notify.Delivery.{lone_report, last_report, stale_timer, group_timeout}

-- An environment that truncates nothing and writes a number as one unit.
abbrev env : Env
env = record {
  max_lines = 2000;
  max_bytes = 50000;
  truncate_tail = λ text lines bytes. record {
    content = text;
    truncated = false;
    output_lines = 0;
    total_lines = 0;
    output_bytes = 0;
    total_bytes = 0;
  };
  format_size = λ n. n ∷ [];
  show = λ n. n ∷ [];
  strip_vt_control = λ t. t;
}

abbrev options : Options
options = record {
  arm_batch_window = 150;
  group_join_timeout = 30000;
  straggler_join_timeout = 15000;
}

-- What a run computes with.
machine : Unit {0}
unfolding run step initial State.clear_batch State.finalize_arm_batch
    State.finalize_current_arm_batch_for State.remove_key_from_current_batch State.ensure_arm_batch
    State.add_key_to_current_batch Groups.remove_key_from_group Groups.on_group_timeout
    Groups.maybe_deliver_completed_group Report.remember_report Report.panel_discrete
    Report.completion_identity Report.remember_delivered_arm Report.remember_delivered_arms
    Report.file_in_group Report.file_report Report.process_completion Report.enqueue_external
    Report.queue_pending_external Report.is_foreign_arm Report.external_delivery
    Report.accept_result Report.judge Report.follow Report.process_external_result
    Watchers.poll_identity Watchers.settle Watchers.watcher_settled Watchers.watcher_failed
    Watchers.begin_batch_member Watchers.release_batch_member Watchers.queue_all
    Watchers.replay_pending Watchers.replace_watcher Watchers.new_slot Watchers.install_watcher
    Watchers.arm Manager.accept_in Manager.accept_arm Manager.watcher_keys Manager.completed_keys
    Manager.group_keys Manager.matching_keys Manager.abort_all Manager.clear_group_timers
    Manager.cancel_all Manager.cancel_key Manager.cancel_keys Manager.cancel
    Manager.deliver_external Manager.run_callback Manager.fire Dict.get Dict.set Dict.delete
    Dict.delete_all Dict.set_all KeySet.has KeySet.add KeySet.delete text_discrete
    Envelope.truncate_for_model Envelope.external_delivery_for grouped_message individual_message
machine = tt

abbrev armed : Text → ArmedNotification
armed name = record {
  name = name;
  pane_id = codes "p-" ++ name;
  summary_source = codes "task";
  completion_source = some CompletionSource.rpc;
  accept_results_since = some 5;
  expected_arm_id = none;
}

abbrev result_of : Text → ExternalResult
result_of id = record {
  status = NotificationState.done;
  final_message = codes "ok";
  sent_at = 10;
  completion_id = some id;
  arm_id = none;
}

abbrev a : Text
a = codes "a"

abbrev b : Text
b = codes "b"

abbrev c : Text
c = codes "c"

-- Three subagents are spawned in one batch, and the batch window passes: its last timer is 4.
abbrev spawned : List Event
spawned =
    Event.begins a
    ∷ Event.begins b
    ∷ Event.begins c
    ∷ Event.fires 4
    ∷ Event.arms (armed a) 6
    ∷ Event.arms (armed b) 6
    ∷ Event.arms (armed c) 6
    ∷ []

abbrev names_of : List Message → List (List Text)
names_of [] = []
names_of (m ∷ ms) = elim m.details [
  | Details.single name pane state observed ↦ (name ∷ []) ∷ names_of ms
  | Details.grouped names panes state partial pending ↦ names ∷ names_of ms
]

-- One result waits for the group, and all three go out together.
grouped_run :
    names_of
      (run env
        (spawned
          ++ (Event.delivers a (result_of a)
              ∷ Event.delivers c (result_of c)
              ∷ Event.delivers c (result_of c)
              ∷ Event.delivers b (result_of b)
              ∷ []))
        (initial options)).sent
    ≡ (a ∷ b ∷ c ∷ []) ∷ []
unfolding machine
grouped_run = refl

-- The group timer 5 of the first report fires after that report was cancelled; the report of `b` is
-- then neither sent nor has a timer.
stale_run :
    let s =
      run env
        (spawned
          ++ (Event.delivers a (result_of a)
              ∷ Event.cancels (some a)
              ∷ Event.fires 5
              ∷ Event.delivers b (result_of b)
              ∷ []))
        (initial options) in
    (s.sent ≡ []) × (s.timers ≡ [])
unfolding machine
stale_run = (refl, refl)

decode-escape_example :
    decode_xml_text (escape_xml_text (codes "&lt;a b=\"1\">&")) ≡ codes "&lt;a b=\"1\">&"
decode-escape_example = decode-escape (codes "&lt;a b=\"1\">&")

escape-IsPlain_example : IsPlain (escape_xml_text (codes "</final_message><x y=\"1\">"))
escape-IsPlain_example = escape-IsPlain (codes "</final_message><x y=\"1\">")

run-initial-IsBounded_example :
    IsBounded (memory (run env (spawned ++ Event.delivers a (result_of a) ∷ []) (initial options)))
run-initial-IsBounded_example =
    run-initial-IsBounded env options (spawned ++ Event.delivers a (result_of a) ∷ [])

abbrev later : List Event
later = Event.delivers b (result_of b) ∷ Event.cancels (some c) ∷ []

abbrev ready : Manager
ready = run env spawned (initial options)

taken_once_example :
    process_external_result env a
      (result_of a)
      (run env later (step env (Event.delivers a (result_of a)) ready))
    ≡ (run env later (step env (Event.delivers a (result_of a)) ready), false)
unfolding machine
taken_once_example =
    taken_once env a a (result_of a) (result_of a) ready later refl refl
      ((λ e. cc), ((λ e. cc), tt))

abbrev delivery : Text → NotificationDelivery
delivery name = record {
  report_kind = ReportKind.final;
  completion_id = codes "id";
  report_text = codes "ok";
  key = name;
  name = name;
  pane_id = codes "p";
  state = NotificationState.done;
  observed = Observed.rpc;
  content_block = codes "block";
  individual_content = codes "content";
}

-- One subagent alone in a batch.
abbrev alone : Manager
alone = run env (Event.begins a ∷ Event.arms (armed a) 6 ∷ []) (initial options)

abbrev alone_batch : PendingArmBatch
alone_batch = record { id = 1; keys = a ∷ []; timeout = 2 }

lone_report_example :
    ((process_completion env (delivery a) alone).sent ≡ individual_message (delivery a) ∷ [])
    × ((process_completion env (delivery a) alone).current_arm_batch ≡ none)
    × (Dict.get ℕ_discrete 2 (process_completion env (delivery a) alone).timers ≡ none)
unfolding machine
lone_report_example = lone_report env (delivery a) alone alone_batch refl refl refl

abbrev pair_group : List (Text × NotificationDelivery) → Option ℕ → CompletionGroup
pair_group completed timeout = record {
  id = 1;
  member_keys = a ∷ b ∷ [];
  completed = completed;
  timeout = timeout;
  is_straggler = false;
}

abbrev pair_manager : CompletionGroup → Manager
pair_manager g = record (initial options) {
  groups = (1, g) ∷ [];
  key_to_group = (a, 1) ∷ (b, 1) ∷ [];
  next_handle = 9;
}

abbrev half_done : CompletionGroup
half_done = pair_group ((b, delivery b) ∷ []) (some 8)

abbrev fresh : CompletionGroup
fresh = pair_group [] none

abbrev stale : CompletionGroup
stale = pair_group [] (some 8)

half_done-IsWellFormed : IsWellFormed half_done
unfolding machine KeySet.IsDistinct
half_done-IsWellFormed = ((refl, (refl, tt)), (refl, tt), (refl, tt))

last_report_example :
    let s' = file_in_group env (delivery a) (some half_done) (pair_manager half_done) in
    (ds : List NotificationDelivery) × (s'.sent ≡ grouped_message env ds false 0 ∷ [])
    × (map some ds ≡ some (delivery a) ∷ some (delivery b) ∷ [])
    × (Dict.get ℕ_discrete 1 s'.groups ≡ none)
unfolding machine
last_report_example =
    last_report env (delivery a) (pair_manager half_done) half_done half_done-IsWellFormed refl
      (refl, (refl, tt))

-- The group has no report, and its timer 8 is set.
abbrev ticking : Manager
ticking = record (pair_manager stale) {
  timers = (8, record { callback = Callback.group_join 1; delay = 30000 }) ∷ [];
}

-- In a group without a timer, the report starts the timer 9.
idle_run :
    (file_in_group env (delivery a) (some fresh) (pair_manager fresh)).timers
    ≡ (9, record { callback = Callback.group_join 1; delay = 30000 }) ∷ []
unfolding machine
idle_run = refl

stale_timer_example :
    (on_group_timeout env 1 (pair_manager stale) ≡ pair_manager stale)
    × ((file_in_group env
          (delivery a)
          (some stale)
          (on_group_timeout env 1 (pair_manager stale))).sent
        ≡ [])
    × ((file_in_group env
          (delivery a)
          (some stale)
          (on_group_timeout env 1 (pair_manager stale))).timers
        ≡ [])
    × (Dict.get text_discrete a (with_report (delivery a) stale).completed ≡ some (delivery a))
    × (Dict.get ℕ_discrete 1
          (file_in_group env
            (delivery a)
            (some stale)
            (on_group_timeout env 1 (pair_manager stale))).groups
        ≡ some (with_report (delivery a) stale))
unfolding machine
stale_timer_example =
    stale_timer env (delivery a) (pair_manager stale) stale 8 refl refl refl (omega arith)

group_timeout_example :
    let s' = on_group_timeout env 1 (pair_manager half_done) in
    (ds : List NotificationDelivery) × (rest : List Text) × (s'.sent
      ≡ grouped_message env ds true (length rest) ∷ [])
    × (map some ds ≡ some (delivery b) ∷ [])
    × IsRemaining half_done rest
    × (length rest + length ds ≡ 2)
    × (Dict.get ℕ_discrete 1 s'.groups ≡ (
        if is_empty rest
        then none
        else some (record half_done {
          member_keys = rest;
          completed = [];
          timeout = none;
          is_straggler = true;
        })))
unfolding machine
group_timeout_example = group_timeout env (pair_manager half_done) half_done refl (λ e. cc)
