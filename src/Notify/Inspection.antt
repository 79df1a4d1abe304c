-- ===== src/Notify/Inspection.antt =====
-- The read receipts of herdr-subagent/notifications.ts: `normalizeReportText` and `beginInspection`.
use pi_dotfiles.Prelude.{
  ℕ, zero, suc, ◌-◌, Bool, false, not, ◌==◌, leb, ◌&&◌, ◌||◌, if◌then◌else◌, Option, none, some,
  List, [], ◌∷◌, ◌++◌, map, Text, codes, text_discrete, ℕ_discrete, length, drop, is_empty,
  is_space, starts_with, includes, trim, trim_start, join, collapse_spaces, pick,
}
use pi_dotfiles.Prelude.Dict
use pi_dotfiles.Notify.Types.{NotificationDelivery, ReportKind, Env}
use pi_dotfiles.Notify.State.{Manager}
use pi_dotfiles.Notify.Groups.{remove_key_from_group}

-- `text.split(/\r?\n/u)`
report_lines : Text → List Text
report_lines [] = [] ∷ []
report_lines (x ∷ xs) = elim (report_lines xs) [
  | [] ↦ []
  | l ∷ ls ↦
      if x == 10
      then [] ∷ l ∷ ls
      else if (x == 13) && starts_with (10 ∷ []) xs
      then l ∷ ls
      else (x ∷ l) ∷ ls
]

-- The number of units of a run that is not empty and that the mark closes.
run_before : (mark : Text) → (stop run : ℕ) → Text → Option ℕ
run_before mark stop run [] = none
run_before mark stop run (x ∷ xs) =
    if (x == stop) || (x == 10)
    then if starts_with mark (x ∷ xs) && leb 1 run then some run else none
    else run_before mark stop (suc run) xs

-- `text.replace(/MARK([^STOP\n]+)MARK/gu, "$1")`: skips the opening mark, copies the run, and skips
-- the closing mark.
unmark : (mark : Text) → (stop skip copy : ℕ) → Text → Text
unfolding run_before
unmark mark stop skip copy [] = []
unmark mark stop (suc skip) copy (x ∷ xs) = unmark mark stop skip copy xs
unmark mark stop zero (suc zero) (x ∷ xs) = x ∷ unmark mark stop (length mark) zero xs
unmark mark stop zero (suc (suc copy)) (x ∷ xs) = x ∷ unmark mark stop zero (suc copy) xs
unmark mark stop zero zero (x ∷ xs) =
    elim (if starts_with mark (x ∷ xs)
      then run_before mark stop 0 (drop (length mark) (x ∷ xs))
      else none) [
        | none ↦ x ∷ unmark mark stop zero zero xs
        | some run ↦ unmark mark stop (length mark - 1) run xs
      ]

-- The text after `#{1,6}`, where a space is next.
after_hashes : (left : ℕ) → Text → Option Text
after_hashes left [] = none
after_hashes zero (x ∷ xs) = if is_space x then some (x ∷ xs) else none
after_hashes (suc left) (x ∷ xs) =
    if x == b'#' then after_hashes left xs else if is_space x then some (x ∷ xs) else none

-- `line.replace(/^\s*#{1,6}\s+/u, "")`
without_heading : Text → Text
unfolding after_hashes
without_heading line =
    if starts_with (codes "#") (trim_start line)
    then elim (after_hashes 6 (trim_start line)) [ none ↦ line | some rest ↦ trim_start rest ]
    else line

abbrev is_bullet : ℕ → Bool
is_bullet c = (c == b'-') || (c == b'*') || (c == b'+') || (c == 0x2022)

plain_bullet_of : (line trimmed : Text) → Text
plain_bullet_of line (x ∷ y ∷ rest) =
    if is_bullet x && is_space y then codes "- " ++ trim_start rest else line
plain_bullet_of line _ = line

-- `line.replace(/^\s*[-*+•]\s+/u, "- ")`
plain_bullet : Text → Text
unfolding plain_bullet_of
plain_bullet line = plain_bullet_of line (trim_start line)

abbrev is_fence : Text → Bool
is_fence line =
    starts_with (codes "```") (trim_start line) || starts_with (codes "~~~") (trim_start line)

normalize_lines : (fenced : Bool) → List Text → List Text
unfolding unmark without_heading plain_bullet
normalize_lines fenced [] = []
normalize_lines fenced (line ∷ lines) =
    if is_fence line
    then [] ∷ normalize_lines (not fenced) lines
    else if fenced
    then line ∷ normalize_lines fenced lines
    else unmark (codes "`") b'`' 0 0
        (unmark (codes "**") b'*' 0 0 (plain_bullet (without_heading line)))
      ∷ normalize_lines fenced lines

module _ (strip_vt_control : Text → Text) where
  unfoldable pub normalize_report_text : Text → Text
  unfolding normalize_lines report_lines
  normalize_report_text text = trim (
      collapse_spaces
        (join (32 ∷ []) (normalize_lines false (report_lines (strip_vt_control text)))))

-- `beginInspection`: the reports that can be acknowledged.
unfoldable pub begin_inspection : Manager → List NotificationDelivery
begin_inspection s = map (λ e. e.1) s.ready_reports

module _ (env : Env) where
  -- Whether the text of an inspection of a pane shows a report.
  unfoldable pub is_shown_in : (name pane_id text : Text) → NotificationDelivery → Bool
  is_shown_in name pane_id text d =
      let expected = normalize_report_text env.strip_vt_control d.report_text in
      pick (text_discrete d.name name)
        (pick (text_discrete d.pane_id pane_id)
          (elim d.report_kind [
            | ReportKind.sample ↦ false
            | ReportKind.final ↦
                not (is_empty expected)
                && includes expected (normalize_report_text env.strip_vt_control text)
          ])
          false)
        false

  -- The completion that a group holds for the key of a report.
  unfoldable pub held_completion : Text → Manager → Option Text
  held_completion key s = elim (Dict.get text_discrete key s.key_to_group) [
    | none ↦ none
    | some id ↦ elim (Dict.get ℕ_discrete id s.groups) [
      | none ↦ none
      | some g ↦ elim (Dict.get text_discrete key g.completed) [
        | none ↦ none
        | some d ↦ some d.completion_id
      ]
    ]
  ]

  unfoldable pub consume : NotificationDelivery → Manager → Manager
  unfolding held_completion
  consume d s = elim (held_completion d.key s) [
    | none ↦ s
    | some id ↦ pick (text_discrete id d.completion_id) (remove_key_from_group env d.key s) s
  ]

  -- The function that `beginInspection` returns: the completions that were consumed.
  unfoldable pub acknowledge :
      List NotificationDelivery → (name pane_id text : Text) → Manager → List Text × Manager
  acknowledge [] name pane_id text s = ([], s)
  acknowledge (d ∷ available) name pane_id text s =
      if is_shown_in name pane_id text d
      then (let (consumed, s') = acknowledge available name pane_id text (consume d s) in
          (d.completion_id ∷ consumed, s'))
      else acknowledge available name pane_id text s
