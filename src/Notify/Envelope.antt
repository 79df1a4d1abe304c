-- ===== src/Notify/Envelope.antt =====
-- What the manager writes for the parent session: the result blocks and the guidance of
-- herdr-subagent/notifications.ts, and `truncateForModel` of herdr-subagent/output.ts.
use pi_dotfiles.Prelude.{
  ℕ, Bool, true, false, leb, if◌then◌else◌, Option, none, some, List, [], ◌∷◌, ◌++◌, map, min, Text,
  codes, length, slice, trim, collapse_spaces, concat, join, some_of,
}
use pi_dotfiles.Notify.Xml.{escape_xml_text}
use pi_dotfiles.Notify.Types.{
  NotificationState, Observed, ReportKind, WatchedNotification, ExternalNotification,
  NotificationDelivery, Env, Message, Details,
}

unfoldable pub summarize_source : Text → Text
unfolding trim collapse_spaces
summarize_source source =
    let compact = trim (collapse_spaces source) in
    if leb (length compact) 100 then compact else slice 0 97 compact ++ codes "..."

unfoldable pub state_verb : NotificationState → Text
state_verb NotificationState.blocked = codes "needs attention"
state_verb NotificationState.done = codes "finished"

unfoldable pub state_text : NotificationState → Text
state_text NotificationState.blocked = codes "blocked"
state_text NotificationState.done = codes "done"

abbrev newline : Text
newline = 10 ∷ []

abbrev result_guidance : Text
result_guidance =
    codes
      "<result_guidance>Use the final report above to continue the parent task. It is the completed subagent response, not a progress sample. Inspect the pane only if you need missing detail or a separate verification. Do not reread or acknowledge a report already used.</result_guidance>"

next_step : NotificationState → Text
next_step NotificationState.blocked =
    codes
      "Evaluate the blocker, then use herdr_subagent send or focus to unblock it when possible. Otherwise, report the blocker to the user."
next_step NotificationState.done =
    codes
      "Evaluate the result, then use the findings to continue the parent task. Do not duplicate the subagent's completed work."

abbrev is_rpc : Observed → Bool
is_rpc Observed.rpc = true
is_rpc _ = false

abbrev is_sample : ReportKind → Bool
is_sample ReportKind.sample = true
is_sample ReportKind.final = false

inspect_action : (name pane_id : Text) → NotificationState → Text
unfolding next_step
inspect_action name pane_id state = concat (
    codes "<required_action tool=\"herdr_subagent\" action=\"inspect\" target=\""
    ∷ escape_xml_text name
    ∷ codes "\" pane=\""
    ∷ escape_xml_text pane_id
    ∷ codes "\">"
    ∷ newline
    ∷ codes
        "If this subagent was already inspected and closed, use the report above without another lookup or respawn. Otherwise, call herdr_subagent with action=inspect and target=\""
    ∷ escape_xml_text name
    ∷ codes "\". "
    ∷ next_step state
    ∷ codes " Do not stop after only acknowledging an unreviewed result."
    ∷ newline
    ∷ codes "</required_action>"
    ∷ [])

-- A watched notification has no report kind, which the caller passes as `none`.
unfoldable pub required_action_for :
    (name pane_id : Text) → NotificationState → Observed → Option ReportKind → Text
unfolding inspect_action
required_action_for name pane_id state Observed.rpc (some ReportKind.sample) =
    inspect_action name pane_id state
required_action_for name pane_id state Observed.rpc _ = result_guidance
required_action_for name pane_id state _ kind = inspect_action name pane_id state

-- `notification.completionId ? … : ""`: an absent and an empty identifier leave the tag out.
completion_tag : Option Text → Text
completion_tag none = []
completion_tag (some []) = []
completion_tag (some (c ∷ id)) =
    codes "<completion_id>" ++ (escape_xml_text (c ∷ id) ++ (codes "</completion_id>" ++ newline))

result_block :
    (name pane_id : Text)
    → NotificationState
    → Option Text
    → (summary : Text) → (tag : Text) → (body : Text) → Text
unfolding state_text completion_tag
result_block name pane_id state completion_id summary tag body = concat (
    codes "<subagent_result name=\""
    ∷ escape_xml_text name
    ∷ codes "\" state=\""
    ∷ state_text state
    ∷ codes "\" pane=\""
    ∷ escape_xml_text pane_id
    ∷ codes "\">"
    ∷ newline
    ∷ completion_tag completion_id
    ∷ codes "<summary>"
    ∷ escape_xml_text summary
    ∷ codes "</summary>"
    ∷ newline
    ∷ codes "<"
    ∷ tag
    ∷ codes ">"
    ∷ newline
    ∷ escape_xml_text body
    ∷ newline
    ∷ codes "</"
    ∷ tag
    ∷ codes ">"
    ∷ newline
    ∷ codes "</subagent_result>"
    ∷ [])

observed_note : Observed → Text
observed_note Observed.idle = codes " (observed idle: pane may have been viewed)"
observed_note _ = []

unfoldable pub watched_result_block_for : WatchedNotification → Text
unfolding result_block observed_note state_verb summarize_source
watched_result_block_for n =
    let summary = concat (
      codes "Subagent "
      ∷ n.name
      ∷ codes " "
      ∷ state_verb n.state
      ∷ observed_note n.observed
      ∷ codes ": "
      ∷ summarize_source n.summary_source
      ∷ []) in
    result_block n.name n.pane_id n.state n.completion_id summary (codes "pane_tail") n.pane_tail

unfoldable pub external_result_block_for : ExternalNotification → Text
unfolding result_block state_verb summarize_source
external_result_block_for n =
    let summary = concat (
      codes "Subagent "
      ∷ n.name
      ∷ codes " "
      ∷ state_verb n.state
      ∷ codes ": "
      ∷ summarize_source n.summary_source
      ∷ []) in
    result_block n.name n.pane_id n.state n.completion_id summary (codes "final_message")
      n.final_message

unfoldable pub envelope_for : WatchedNotification → Text
unfolding watched_result_block_for required_action_for
envelope_for n =
    watched_result_block_for n
    ++ (newline ++ (newline ++ required_action_for n.name n.pane_id n.state n.observed none))

unfoldable pub external_envelope_for : ExternalNotification → Text
unfolding external_result_block_for required_action_for
external_envelope_for n =
    external_result_block_for n
    ++ (newline
        ++ (newline
            ++ required_action_for n.name n.pane_id n.state Observed.rpc (some n.report_kind)))

unfoldable pub group_guidance_for : List NotificationDelivery → Bool → Text
unfolding required_action_for join
group_guidance_for deliveries partial =
    join newline (
      map (λ d. required_action_for d.name d.pane_id d.state d.observed (some d.report_kind))
        deliveries)
    ++ (newline
        ++ (if partial
            then codes "Remaining grouped subagents are still running and will be re-batched."
            else codes
                "Use the completed reports to continue the parent task. Inspect only progress samples or missing details."))

-- `watchedDeliveryFor`, with the completion identifier that its caller puts in.
unfoldable pub watched_delivery_for : Text → WatchedNotification → Text → NotificationDelivery
unfolding watched_result_block_for envelope_for
watched_delivery_for key notification completion_id =
    let n = record notification { completion_id = some completion_id } in
    record {
      report_kind = ReportKind.sample;
      completion_id = completion_id;
      report_text = n.pane_tail;
      key = key;
      name = n.name;
      pane_id = n.pane_id;
      state = n.state;
      observed = n.observed;
      content_block = watched_result_block_for n;
      individual_content = envelope_for n;
    }

-- `externalDeliveryFor`, with the completion identifier that its caller puts in.
unfoldable pub external_delivery_for : Text → ExternalNotification → Text → NotificationDelivery
unfolding external_result_block_for external_envelope_for
external_delivery_for key notification completion_id =
    let n = record notification { completion_id = some completion_id } in
    record {
      report_kind = n.report_kind;
      completion_id = completion_id;
      report_text = n.final_message;
      key = key;
      name = n.name;
      pane_id = n.pane_id;
      state = n.state;
      observed = Observed.rpc;
      content_block = external_result_block_for n;
      individual_content = external_envelope_for n;
    }

-- The message of `sendNotification`.
unfoldable pub individual_message : NotificationDelivery → Message
individual_message d = record {
  content = d.individual_content;
  details = Details.single d.name d.pane_id d.state d.observed;
}

abbrev is_blocked : NotificationDelivery → Bool
is_blocked d = elim d.state [ NotificationState.blocked ↦ true | NotificationState.done ↦ false ]

module _ (env : Env) where
  open env use {max_lines, max_bytes, truncate_tail, format_size, show}

  unfoldable pub group_envelope_for : List NotificationDelivery → Bool → ℕ → Text
  unfolding group_guidance_for join
  group_envelope_for deliveries partial pending = concat (
      codes "<subagent_result_group state=\""
      ∷ (if partial then codes "partial" else codes "complete")
      ∷ codes "\" partial=\""
      ∷ (if partial then codes "true" else codes "false")
      ∷ codes "\" delivered=\""
      ∷ show (length deliveries)
      ∷ codes "\" pending=\""
      ∷ show pending
      ∷ codes "\">"
      ∷ newline
      ∷ join (newline ++ newline) (map (λ d. d.content_block) deliveries)
      ∷ newline
      ∷ codes "</subagent_result_group>"
      ∷ newline
      ∷ newline
      ∷ group_guidance_for deliveries partial
      ∷ [])

  -- `truncateForModel(text, lines)`: the text to show, and whether it was cut.
  unfoldable pub truncate_for_model : Text → ℕ → Text × Bool
  truncate_for_model text lines =
      let t = truncate_tail text (min lines max_lines) max_bytes in
      if t.truncated
      then (
        concat (
            t.content
            ∷ newline
            ∷ newline
            ∷ codes "[Output truncated: showing last "
            ∷ show t.output_lines
            ∷ codes " of "
            ∷ show t.total_lines
            ∷ codes " lines ("
            ∷ format_size t.output_bytes
            ∷ codes " of "
            ∷ format_size t.total_bytes
            ∷ codes ").]"
            ∷ []),
        true,
      )
      else (t.content, false)

  -- The message of `sendGroupedNotification`.
  unfoldable pub grouped_message : List NotificationDelivery → Bool → ℕ → Message
  unfolding group_envelope_for
  grouped_message deliveries partial pending = record {
    content = group_envelope_for deliveries partial pending;
    details =
        Details.grouped (map (λ d. d.name) deliveries) (map (λ d. d.pane_id) deliveries)
          (if some_of is_blocked deliveries
            then NotificationState.blocked
            else NotificationState.done)
          partial pending;
  }
