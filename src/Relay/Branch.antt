-- ===== src/Relay/Branch.antt =====
-- The snapshot of the active branch in web-herdr-relay/normalization.ts.
use pi_dotfiles.Prelude.{
  ℕ, ◌+◌, Bool, true, false, not, leb, ◌&&◌, ◌||◌, if◌then◌else◌, none, some, List, [], ◌∷◌, Text,
  codes, length, take_last, sort_by, is_empty,
}
use pi_dotfiles.Prelude.Json.{Value, items_of}
use pi_dotfiles.Relay.Data.{RelayMessage, RelayTool, RelaySnapshot}
use pi_dotfiles.Relay.Extract.{Runtime, property, is_string, text_of, value_or_null}
use pi_dotfiles.Relay.Collect.{has_type, shown, Collected, collect_all}

abbrev pub maximum_relay_snapshot_bytes : ℕ
maximum_relay_snapshot_bytes = 1500000

unfoldable pub is_renderable_entry : Value → Bool
is_renderable_entry v =
    let message = value_or_null (property (codes "message") v) in
    let role = property (codes "role") message in
    if has_type (codes "compaction") v
      || has_type (codes "branch_summary") v
      || (has_type (codes "custom_message") v && shown v)
    then true
    else if not (has_type (codes "message") v)
    then false
    else is_string role (codes "user")
      || is_string role (codes "assistant")
      || is_string role (codes "toolResult")
      || (is_string role (codes "custom") && shown message)

abbrev pub is_summary_entry : Value → Bool
is_summary_entry v = has_type (codes "compaction") v || has_type (codes "branch_summary") v

-- An entry that is an object with a string for its `id`; the others are never rendered.
abbrev pub is_candidate : Value → Bool
is_candidate v = elim (text_of (property (codes "id") v)) [
  | none ↦ false
  | some id ↦ is_renderable_entry v
]

-- What the loop from the last entry to the first retains of the entries.
unfoldable pub retain_renderable_entries : List Value → List Value
retain_renderable_entries [] = []
retain_renderable_entries (v ∷ vs) =
    let retained = retain_renderable_entries vs in
    if not (is_candidate v)
    then retained
    else if leb 240 (length retained) && not (is_summary_entry v)
    then retained
    else v ∷ retained

module _ {A : Type 0} (timestamp : A → ℕ) where
  -- `[...items].sort((left, right) => left.timestamp - right.timestamp)`, which is stable.
  unfoldable pub chronological : List A → List A
  chronological items = sort_by (λ a x. leb (timestamp a) (timestamp x)) items

module _ {A : Type 0} (json_size : A → ℕ) where
  -- The loop of `boundSnapshot` over the items, the last one first: what is kept, the bytes with it,
  -- and whether the loop goes on to the item before.
  unfoldable pub bound_items : List A → (bytes : ℕ) → List A × ℕ × Bool
  bound_items [] bytes = ([], bytes, true)
  bound_items (a ∷ items) bytes =
      let (bounded, used, goes_on) = bound_items items bytes in
      let total = used + (json_size a + (if is_empty bounded then 0 else 1)) in
      if goes_on && leb total maximum_relay_snapshot_bytes
      then (a ∷ bounded, total, true)
      else (bounded, used, false)

-- The UTF-8 lengths of the JSON texts of the items.
pub record Sizes : Type 0 where
  pub message_size : RelayMessage → ℕ
  pub tool_size : RelayTool → ℕ

-- The length of `{"messages":[],"tools":[]}`.
abbrev pub empty_snapshot_size : ℕ
empty_snapshot_size = 26

unfoldable pub bound_snapshot : Sizes → List RelayMessage → List RelayTool → RelaySnapshot
bound_snapshot sizes messages tools =
    let (bounded_messages, bytes, _) =
      bound_items sizes.message_size messages empty_snapshot_size in
    let (bounded_tools, _, _) = bound_items sizes.tool_size tools bytes in
    record { messages = bounded_messages; tools = bounded_tools }

-- The values of the map of the tools.
unfoldable pub tools_in : List (Text × RelayTool) → List RelayTool
tools_in [] = []
tools_in ((id, t) ∷ tools) = t ∷ tools_in tools

-- What the retained entries of a branch give.
abbrev pub collected_entries : Runtime → (fallback : ℕ) → List Text → List Value → Collected
collected_entries runtime fallback paths entries =
    collect_all runtime fallback paths (retain_renderable_entries entries)
      (record { messages = []; tools = [] })

-- The messages that the retained entries of a branch give, in the order of time.
unfoldable pub branch_messages :
    Runtime → (fallback : ℕ) → List Text → List Value → List RelayMessage
branch_messages runtime fallback paths entries =
    chronological (λ m. m.timestamp) (collected_entries runtime fallback paths entries).messages

-- The tools that the retained entries of a branch give, in the order of time.
unfoldable pub branch_tools : Runtime → (fallback : ℕ) → List Text → List Value → List RelayTool
unfolding tools_in
branch_tools runtime fallback paths entries =
    chronological (λ t. t.timestamp)
      (tools_in (collected_entries runtime fallback paths entries).tools)

unfoldable pub normalize_active_branch :
    Runtime → Sizes → (entries : Value) → (fallback : ℕ) → List Text → RelaySnapshot
normalize_active_branch runtime sizes (Value.array entries) fallback paths =
    bound_snapshot sizes (take_last 240 (branch_messages runtime fallback paths (items_of entries)))
      (take_last 80 (branch_tools runtime fallback paths (items_of entries)))
normalize_active_branch runtime sizes _ fallback paths = record { messages = []; tools = [] }
