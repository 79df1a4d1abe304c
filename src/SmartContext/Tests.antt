-- ===== src/SmartContext/Tests.antt =====
-- Requests to a small session, and the theorems of this component at it.
use pi_dotfiles.Prelude.{
  ◌≡◌, ◌≢◌, refl, arith, Option, none, some, List, [], ◌∷◌, ◌++◌, Text, codes, drop, text_discrete,
  trim, trim_start, trim_end, is_space,
}
use pi_dotfiles.SmartContext.Session.{Part, Content, Message, CheckpointData, Body, SessionEntry}
use pi_dotfiles.SmartContext.Archive.{HistoryItem}
use pi_dotfiles.SmartContext.History.{HistoryRequest, Paging, up_to, query_history}
use pi_dotfiles.Prelude.{includes, true}
use pi_dotfiles.SmartContext.Archive.{history_items}
use pi_dotfiles.SmartContext.Recovery.{recovery_seed}
use pi_dotfiles.SmartContext.Recovery.Seed.{seed_holds}
use pi_dotfiles.SmartContext.History.Snapshot.{snapshot_stable}
use pi_dotfiles.SmartContext.History.Reading.{read_on, read_on_complete}
use pi_dotfiles.SmartContext.Checkpoint.{
  is_new_input, is_checkpoint, is_compaction, parse_checkpoint, read_checkpoint, entries_after,
  current_window, check_saved, require_checkpoint, CheckpointError, SavedCheckpoint, ok, err,
  checkpoint_entry,
}
use pi_dotfiles.SmartContext.Checkpoint.Fresh.{input_after_rejects, reset_names_window}

abbrev asks : SessionEntry
asks = record {
  id = codes "u";
  body = Body.message (Message.user (Content.plain (codes "fix it")));
}

abbrev answers : SessionEntry
answers = record {
  id = codes "v";
  body =
      Body.message
        (Message.assistant (Content.parts (Part.text (codes "done") ∷ [])) (codes "stop"));
}

abbrev compacts : SessionEntry
compacts = record { id = codes "c"; body = Body.compaction (codes "so far") }

abbrev note : CheckpointData
note = record { version = 1; window_id = codes "c"; anchor_id = codes "v"; text = codes "plan" }

abbrev saves : SessionEntry
saves = record { id = codes "k"; body = Body.custom checkpoint_entry (some note) }

abbrev saved : SavedCheckpoint
saved = record { note = note; id = codes "k" }

abbrev branch : List SessionEntry
branch = asks ∷ answers ∷ compacts ∷ saves ∷ []

reset_run : require_checkpoint branch ≡ ok saved
unfolding require_checkpoint read_checkpoint is_checkpoint parse_checkpoint check_saved
    entries_after is_new_input current_window is_compaction text_discrete trim trim_start trim_end
    is_space
reset_run = refl

rejected_run : require_checkpoint (branch ++ (asks ∷ [])) ≡ err CheckpointError.new_input
unfolding require_checkpoint read_checkpoint is_checkpoint parse_checkpoint check_saved
    entries_after is_new_input current_window is_compaction text_discrete trim trim_start trim_end
    is_space
rejected_run = refl

abbrev paging : Option Text → Paging
paging id = record { snapshot_id = id; window_id = none; offset = some 1; limit = some 1 }

input_after_rejects_example : require_checkpoint (branch ++ (asks ∷ answers ∷ [])) ≢ ok saved
unfolding is_new_input is_checkpoint
input_after_rejects_example = input_after_rejects branch (answers ∷ []) asks saved refl (refl, tt)

reset_names_window_example : saved.note.window_id ≡ compacts.id
unfolding is_compaction
reset_names_window_example =
    reset_names_window (asks ∷ answers ∷ []) (saves ∷ []) compacts saved refl (refl, tt) reset_run

snapshot_stable_example :
    query_history (branch ++ (asks ∷ [])) (HistoryRequest.lists (paging (some (codes "c"))))
    ≡ query_history branch (HistoryRequest.lists (paging (some (codes "c"))))
unfolding up_to text_discrete
snapshot_stable_example =
    snapshot_stable branch (asks ∷ []) (asks ∷ answers ∷ compacts ∷ [])
      (HistoryRequest.lists (paging (some (codes "c")))) (paging (some (codes "c"))) (codes "c")
      refl refl refl

abbrev item : HistoryItem
item = record {
  id = codes "u";
  window_id = codes "initial";
  role = codes "user";
  text = codes "fix it";
  tool_name = none;
  tool_call_id = none;
  is_error = none;
  exit_code = none;
  cancelled = none;
  truncated = none;
  stop_reason = none;
}

read_on_complete_example : read_on 7 item 2 0 ≡ some (drop 0 (codes "fix it"))
read_on_complete_example = read_on_complete 7 item 2 0 (omega arith) (omega arith)

seed_holds_example :
    (includes (codes "plan") (recovery_seed branch (some saved)) ≡ true)
    × (includes (codes "u") (recovery_seed branch (some saved)) ≡ true)
unfolding history_items text_discrete
seed_holds_example = seed_holds branch saved (record item { text = codes "fix it" }) refl
