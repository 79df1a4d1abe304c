-- ===== src/SmartContext/History.antt =====
-- `queryHistory` of smart-context/history.ts.
pub mod Snapshot
pub mod Reading
use pi_dotfiles.Prelude.{
  ℕ, zero, suc, ◌+◌, ◌-◌, ◌≤◌, ◌<◌, ◌≡◌, Bool, true, false, not, leb, ltb, ◌==◌, ◌&&◌, ◌||◌,
  if◌then◌else◌, Option, none, some, List, [], ◌∷◌, ◌++◌, Text, codes, length, take, drop, slice,
  keep, find, map, join, includes, is_empty, starts_with, text_discrete, pick,
}
use mathlib.Core.List.{reverse}
use pi_dotfiles.SmartContext.Archive.{HistoryItem, history_items}
use pi_dotfiles.SmartContext.Session.{Part, Content, BashExecution, Message, Body, SessionEntry}

pub record Paging : Type 0 where
  pub snapshot_id : Option Text
  pub window_id : Option Text
  pub offset : Option ℕ
  pub limit : Option ℕ

-- A decoded request. Its numbers are integers that are not negative.
pub data HistoryRequest : Type 0 where
  lists : Paging → HistoryRequest
  searches : (query : Text) → Paging → HistoryRequest
  reads : (id : Text) → (offset limit : Option ℕ) → HistoryRequest

pub data HistoryError : Type 0 where
  invalid_request snapshot_required snapshot_not_found item_not_found : HistoryError

pub record ReadChunk : Type 0 where
  pub item : HistoryItem
  pub text : Text
  pub offset : ℕ
  pub next_offset : Option ℕ
  pub total_characters : ℕ

pub record HistoryPage : Type 0 where
  pub snapshot_id : Option Text
  pub items : List (HistoryItem × Text)
  pub next_offset : Option ℕ
  pub total : ℕ

pub data Answer : Type 0 where
  fails : HistoryError → Answer
  chunk : ReadChunk → Answer
  page : HistoryPage → Answer

abbrev pub default_to {ℓ} : {A : Type ℓ} → Option A → A → A
default_to none a = a
default_to (some b) a = b

abbrev within : Option ℕ → ℕ → Bool
within none most = true
within (some n) most = leb 1 n && leb n most

abbrev nonempty : Option Text → Bool
nonempty none = true
nonempty (some t) = not (is_empty t)

abbrev valid_paging : Paging → Bool
valid_paging p = nonempty p.snapshot_id && nonempty p.window_id && within p.limit 30

-- The checks of the schema `HistoryRequest`.
unfoldable pub is_valid : HistoryRequest → Bool
is_valid (HistoryRequest.lists p) = valid_paging p
is_valid (HistoryRequest.searches query p) =
    not (is_empty query) && leb (length query) 500 && valid_paging p
is_valid (HistoryRequest.reads id offset limit) = not (is_empty id) && within limit 8000

-- `offset + count < total ? offset + count : null`
abbrev pub next_of : (offset count total : ℕ) → Option ℕ
next_of offset count total = if ltb (offset + count) total then some (offset + count) else none

unfoldable pub read_chunk : HistoryItem → (offset limit : ℕ) → ReadChunk
read_chunk item offset limit =
    let text = slice offset (offset + limit) item.text in
    record {
      item = item;
      text = text;
      offset = offset;
      next_offset = next_of offset (length text) (length item.text);
      total_characters = length item.text;
    }

unfoldable pub read_item : List HistoryItem → (id : Text) → (offset limit : ℕ) → Answer
unfolding read_chunk
read_item items id offset limit = elim (find (λ i. pick (text_discrete i.id id) true false) items) [
  | none ↦ Answer.fails HistoryError.item_not_found
  | some item ↦ Answer.chunk (read_chunk item offset limit)
]

-- `text.indexOf(query)` for a query that occurs in the text.
index_of : Text → Text → ℕ
index_of query [] = 0
index_of query (c ∷ cs) =
    let rest = index_of query cs in if starts_with query (c ∷ cs) then 0 else suc rest

-- The preview starts 60 units before the first match of a search.
preview : Option Text → HistoryItem → Text
unfolding index_of
preview none item = take 200 item.text
preview (some query) item =
    slice (index_of query item.text - 60) (index_of query item.text - 60 + 200) item.text

abbrev matches : Option Text → Option Text → HistoryItem → Bool
matches query window item =
    (elim window [ none ↦ true | some w ↦ pick (text_discrete item.window_id w) true false ])
    && (elim query [ none ↦ true | some q ↦ includes q item.text ])

unfoldable pub matching : Option Text → Option Text → List HistoryItem → List HistoryItem
matching query window items = reverse (keep (matches query window) items)

-- The page of the matches, newest first.
unfoldable pub page_of :
    Option Text
    → (matching : List HistoryItem) → (snapshot : Option Text) → (offset limit : ℕ) → HistoryPage
unfolding preview
page_of query found snapshot offset limit =
    let shown = take limit (drop offset found) in
    record {
      snapshot_id = snapshot;
      items = map (λ i. (i, preview query i)) shown;
      next_offset = next_of offset (length shown) (length found);
      total = length found;
    }

-- The branch up to and with its first entry of this identifier.
unfoldable pub up_to : Text → List SessionEntry → Option (List SessionEntry)
up_to id [] = none
up_to id (e ∷ es) =
    pick (text_discrete e.id id) (some (e ∷ []))
      (elim (up_to id es) [ none ↦ none | some front ↦ some (e ∷ front) ])

abbrev last_id : List SessionEntry → Option Text
last_id [] = none
last_id (e ∷ []) = some e.id
last_id (e ∷ f ∷ es) = last_id (f ∷ es)

unfoldable pub page_at : Option Text → Paging → List SessionEntry → Answer
unfolding history_items matching page_of
page_at query p front = Answer.page (
    page_of query (matching query p.window_id (history_items front)) (last_id front)
      (default_to p.offset 0) (default_to p.limit 10))

-- The paged requests. `snapshot_id` is required where a page is continued.
unfoldable pub query_snapshot : List SessionEntry → Option Text → Paging → Option Text → Answer
unfolding page_at
query_snapshot branch query p none =
    if ltb 0 (default_to p.offset 0)
    then Answer.fails HistoryError.snapshot_required
    else page_at query p branch
query_snapshot branch query p (some id) = elim (up_to id branch) [
  | none ↦ Answer.fails HistoryError.snapshot_not_found
  | some front ↦ page_at query p front
]

unfoldable pub query_page : List SessionEntry → Option Text → Paging → Answer
unfolding query_snapshot
query_page branch query p = query_snapshot branch query p p.snapshot_id

unfoldable pub run_query : List SessionEntry → HistoryRequest → Answer
run_query branch (HistoryRequest.lists p) = query_page branch none p
run_query branch (HistoryRequest.searches query p) = query_page branch (some query) p
run_query branch (HistoryRequest.reads id offset limit) =
    read_item (history_items branch) id (default_to offset 0) (default_to limit 4000)

unfoldable pub query_history : List SessionEntry → HistoryRequest → Answer
query_history branch request =
    if is_valid request then run_query branch request else Answer.fails HistoryError.invalid_request
