-- ===== src/SmartContext/Checkpoint.antt =====
-- `currentWindow`, `readCheckpoint` and `requireCheckpoint` of smart-context/checkpoint.ts.
pub mod Fresh
use pi_dotfiles.Prelude.{
  ℕ, zero, suc, Bool, true, false, not, leb, ◌==◌, ◌&&◌, if◌then◌else◌, Option, none, some, List,
  [], ◌∷◌, Text, codes, length, drop, some_of, trim, is_empty, text_discrete, pick,
}
use pi_dotfiles.SmartContext.Session.{Message, CheckpointData, Body, SessionEntry}
use pi_dotfiles.SmartContext.Archive.{initial_window}

-- `xs.findLast(p)`
abbrev pub find_last {ℓ} : {A : Type ℓ} → (A → Bool) → List A → Option A
find_last p [] = none
find_last p (x ∷ xs) = elim (find_last p xs) [
  | none ↦ if p x then some x else none
  | some y ↦ some y
]

-- `xs.findIndex(p)`, `none` for -1.
abbrev pub find_index {ℓ} : {A : Type ℓ} → (A → Bool) → List A → Option ℕ
find_index p [] = none
find_index p (x ∷ xs) = elim (p x) [
  | true ↦ some zero
  | false ↦ elim (find_index p xs) [ none ↦ none | some i ↦ some (suc i) ]
]

abbrev pub checkpoint_entry : Text
checkpoint_entry = codes "smart-context-checkpoint"

unfoldable pub is_compaction : SessionEntry → Bool
is_compaction e = elim e.body [ Body.compaction s ↦ true | _ ↦ false ]

unfoldable pub is_checkpoint : SessionEntry → Bool
is_checkpoint e = elim e.body [
  | Body.custom kind given ↦ pick (text_discrete kind checkpoint_entry) true false
  | _ ↦ false
]

-- The window of a branch: that of its last compaction.
unfoldable pub current_window : List SessionEntry → Text
unfolding is_compaction
current_window branch = elim (find_last is_compaction branch) [
  | none ↦ initial_window
  | some e ↦ e.id
]

-- The schema `Checkpoint`.
unfoldable pub parse_checkpoint : CheckpointData → Option CheckpointData
parse_checkpoint d =
    if (d.version == 1)
      && not (is_empty d.window_id)
      && not (is_empty d.anchor_id)
      && not (is_empty d.text)
      && leb (length d.text) 8000
      && not (is_empty (trim d.text))
    then some d
    else none

pub record SavedCheckpoint : Type 0 where
  pub note : CheckpointData
  pub id : Text

pub data CheckpointError : Type 0 where
  invalid_checkpoint no_checkpoint new_input : CheckpointError

pub data Outcome {ℓ} (A : Type ℓ) : Type ℓ where
  ok : A → Outcome A
  err : CheckpointError → Outcome A

saved_of : SessionEntry → Outcome (Option SavedCheckpoint)
unfolding parse_checkpoint
saved_of e = elim e.body [
  | Body.custom kind (some d) ↦ elim (parse_checkpoint d) [
    | none ↦ err CheckpointError.invalid_checkpoint
    | some note ↦ ok (some (record { note = note; id = e.id }))
  ]
  | Body.custom kind none ↦ err CheckpointError.invalid_checkpoint
  | _ ↦ ok none
]

unfoldable pub read_checkpoint : List SessionEntry → Outcome (Option SavedCheckpoint)
unfolding is_checkpoint saved_of
read_checkpoint branch = elim (find_last is_checkpoint branch) [
  | none ↦ ok none
  | some e ↦ saved_of e
]

-- The entries that bring input which a checkpoint before them does not cover.
unfoldable pub is_new_input : SessionEntry → Bool
is_new_input e = elim e.body [
  | Body.custom_message content ↦ true
  | Body.branch_summary s ↦ true
  | Body.message (Message.user content) ↦ true
  | _ ↦ false
]

abbrev pub has_id : Text → SessionEntry → Bool
has_id id e = pick (text_discrete e.id id) true false

-- `branch.slice(branch.findIndex(...) + 1)`
unfoldable pub entries_after : Text → List SessionEntry → List SessionEntry
entries_after id branch = elim (find_index (has_id id) branch) [
  | none ↦ branch
  | some i ↦ drop (suc i) branch
]

-- The checks of a checkpoint that was read.
unfoldable pub check_saved : List SessionEntry → SavedCheckpoint → Outcome SavedCheckpoint
unfolding entries_after is_new_input current_window
check_saved branch saved =
    if pick (text_discrete saved.note.window_id (current_window branch)) true false
    then if some_of is_new_input (entries_after saved.id branch)
      then err CheckpointError.new_input
      else ok saved
    else err CheckpointError.no_checkpoint

unfoldable pub require_checkpoint : List SessionEntry → Outcome SavedCheckpoint
unfolding read_checkpoint check_saved
require_checkpoint branch = elim (read_checkpoint branch) [
  | err e ↦ err e
  | ok none ↦ err CheckpointError.no_checkpoint
  | ok (some saved) ↦ check_saved branch saved
]
