-- ===== src/Relay/Tests.antt =====
-- A branch of a session, and the theorems on its snapshot.
use mathlib.Core.List.{Perm}
use pi_dotfiles.Prelude.{
  ◌≡◌, ◌≤◌, ◌<◌, ◌⊎◌, ◌+◌, refl, none, List, [], ◌∷◌, Text, codes, length, keep, take_last, trim,
  trim_start, trim_end, is_space, join, text_discrete,
}
use pi_dotfiles.Prelude.Regex.{replace_all, match_at}
use pi_dotfiles.Prelude.Sort.{InOrder}
use pi_dotfiles.Prelude.Json.{Value, Items, items_of, items_from, fields_from}
use pi_dotfiles.Relay.Text.{redact}
use pi_dotfiles.Relay.Collapse
use pi_dotfiles.Relay.Collapse.{collapse_uploaded_files}
use pi_dotfiles.Relay.Extract.{Runtime}
use pi_dotfiles.Relay.Branch.{
  Sizes, empty_snapshot_size, maximum_relay_snapshot_bytes, collected_entries, tools_in,
  branch_messages, branch_tools, normalize_active_branch, retain_renderable_entries, is_candidate,
}
use pi_dotfiles.Relay.Bounds.{array_size, IsLongestFit, snapshot_size, normalize_active_branch-fits}
use pi_dotfiles.Relay.Retain.{is_summary, is_other, retain_renderable_entries-keeps}

-- A runtime that reads no date, and counts the units of a text.
abbrev runtime : Runtime
runtime = record {
  date_parse = λ t. none;
  stringify = λ v. none;
  byte_length = λ t. length t;
  sha256 = λ t. t;
  strip_vt_control = λ t. t;
  redact_credentials = λ t. t;
  to_string = λ v. codes "value";
}

-- Two messages of this size fit, and a third does not.
abbrev sizes : Sizes
sizes = record { message_size = λ m. 700000; tool_size = λ t. 100000 }

abbrev object : List (Text × Value) → Value
object fs = Value.object (fields_from fs)

abbrev user_entry : (id : Text) → Value
user_entry id = object (
    (codes "id", Value.string id)
    ∷ (codes "type", Value.string (codes "message"))
    ∷ (
      codes "message",
      object (
          (codes "role", Value.string (codes "user"))
          ∷ (codes "content", Value.string (codes "hi"))
          ∷ []),
    )
    ∷ [])

abbrev summary_entry : Value
summary_entry = object (
    (codes "id", Value.string (codes "c"))
    ∷ (codes "type", Value.string (codes "compaction"))
    ∷ (codes "summary", Value.string (codes "before"))
    ∷ [])

abbrev entries : Items
entries =
    items_from (summary_entry ∷ user_entry (codes "a") ∷ Value.null ∷ user_entry (codes "b") ∷ [])

normalize_active_branch-fits_example :
    let s = normalize_active_branch runtime sizes (Value.array entries) 7 [] in
    let given = collected_entries runtime 7 [] (items_of entries) in
    let messages = branch_messages runtime 7 [] (items_of entries) in
    let tools = branch_tools runtime 7 [] (items_of entries) in
    Perm messages given.messages
    × Perm tools (tools_in given.tools)
    × InOrder (λ m. m.timestamp) messages
    × InOrder (λ t. t.timestamp) tools
    × IsLongestFit sizes.message_size empty_snapshot_size (take_last 240 messages) s.messages
    × IsLongestFit sizes.tool_size
        (empty_snapshot_size + array_size sizes.message_size s.messages)
        (take_last 80 tools)
        s.tools
    × (snapshot_size sizes s ≤ maximum_relay_snapshot_bytes)
    × InOrder (λ m. m.timestamp) s.messages
    × InOrder (λ t. t.timestamp) s.tools
normalize_active_branch-fits_example = normalize_active_branch-fits runtime sizes entries 7 []

retain_renderable_entries-keeps_example :
    (keep is_summary (retain_renderable_entries (items_of entries))
      ≡ keep is_summary (items_of entries))
    × (length (keep is_other (retain_renderable_entries (items_of entries))) ≤ 240)
    × ((240 < length (keep is_candidate (items_of entries)))
        ⊎ (retain_renderable_entries (items_of entries) ≡ keep is_candidate (items_of entries)))
retain_renderable_entries-keeps_example = retain_renderable_entries-keeps (items_of entries)

uploads_run :
    collapse_uploaded_files (
      codes
        "<web-herdr-files>\nThe following user-uploaded files are available locally:\nx.txt\t/tmp/x\n</web-herdr-files>\n\nsee it")
    ≡ codes "Attached files:\n- x.txt\n\nsee it"
unfolding collapse_uploaded_files Collapse.collapse_expanded_skill trim trim_start trim_end is_space
    join text_discrete
uploads_run = refl

skill_run :
    collapse_uploaded_files (
      codes
        "<skill x\n<!-- web-herdr-skill:skill:a-b -->\nbody\n<!-- /web-herdr-skill -->\n</skill>\n\n go")
    ≡ codes "/skill:a-b go"
unfolding collapse_uploaded_files Collapse.collapse_expanded_skill trim trim_start trim_end is_space
    join text_discrete
skill_run = refl

redact_run :
    redact (codes "/s/x.jsonl" ∷ []) (codes "at /s/x.jsonl, Full output saved to: /tmp/a.log")
    ≡ codes "at [redacted session path], full output saved to: [redacted output path]"
unfolding redact text_discrete replace_all is_space match_at
redact_run = refl
