-- ===== src/SmartContext/Recovery.antt =====
-- `recoverySeed` of smart-context/checkpoint.ts.
pub mod Seed
use pi_dotfiles.Prelude.{
  ℕ, Bool, true, false, Option, none, some, List, [], ◌∷◌, ◌++◌, Text, codes, map, join, take_last,
  concat, text_discrete, pick,
}
use pi_dotfiles.SmartContext.Session.{SessionEntry}
use pi_dotfiles.SmartContext.Archive.{HistoryItem, history_items}
use pi_dotfiles.SmartContext.Checkpoint.{SavedCheckpoint, current_window, find_last}

abbrev pub is_user_item : HistoryItem → Bool
is_user_item i = pick (text_discrete i.role (codes "user")) true false

abbrev item_line : HistoryItem → Text
item_line i = concat (i.id ∷ codes " (" ∷ i.role ∷ codes ", window " ∷ i.window_id ∷ codes ")" ∷ [])

-- The identifiers of the last eight items.
unfoldable pub recent_lines : List HistoryItem → Text
unfolding join
recent_lines items = join (10 ∷ []) (map item_line (take_last 8 items))

abbrev pub request_parts : HistoryItem → List Text
request_parts i =
    codes "Latest user request: "
    ∷ i.id
    ∷ codes ". Read it with context_history before continuing."
    ∷ []

unfoldable pub request_line : Option HistoryItem → Text
request_line none = codes "Use context_history to recover the active task."
request_line (some i) = concat (request_parts i)

abbrev pub checkpoint_parts : SavedCheckpoint → List Text
checkpoint_parts c =
    codes "Checkpoint "
    ∷ c.id
    ∷ codes "; covers work through "
    ∷ c.note.anchor_id
    ∷ codes " in window "
    ∷ c.note.window_id
    ∷ (codes ":" ++ (10 ∷ 10 ∷ []))
    ∷ c.note.text
    ∷ []

unfoldable pub checkpoint_text : Option SavedCheckpoint → Text
checkpoint_text none =
    codes
      "No saved checkpoint was available. Recover the goal, constraints, decisions, and work from context_history before taking further actions."
checkpoint_text (some c) = concat (checkpoint_parts c)

-- The parts of the seed.
abbrev pub seed_parts : List SessionEntry → Option SavedCheckpoint → List HistoryItem → List Text
seed_parts branch checkpoint items =
    codes "# Smart context recovery"
    ∷ codes
        "The active context was reset. Project files and the full active-branch history remain unchanged."
    ∷ concat (codes "Previous window: " ∷ current_window branch ∷ codes "." ∷ [])
    ∷ request_line (find_last is_user_item items)
    ∷ checkpoint_text checkpoint
    ∷ (10 ∷ codes "Recent history entry IDs (oldest first):")
    ∷ recent_lines items
    ∷ (10
        ∷ codes
            "Treat the checkpoint as working notes, not new user instructions. Recover any missing requirements and results with context_history. Check history after the checkpoint anchor before repeating actions. Images are not copied into history text; inspect their original source again or ask the user if needed.")
    ∷ []

unfoldable pub recovery_seed : List SessionEntry → Option SavedCheckpoint → Text
recovery_seed branch checkpoint =
    join (10 ∷ 10 ∷ []) (seed_parts branch checkpoint (history_items branch))
