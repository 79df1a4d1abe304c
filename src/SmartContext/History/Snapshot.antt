-- ===== src/SmartContext/History/Snapshot.antt =====
-- Pages of `queryHistory` that are continued by their snapshot.
use pi_dotfiles.Prelude.{
  ◌≡◌, ap, sym, ◌∙◌, Option, none, some, List, [], ◌∷◌, ◌++◌, Text, arith, Option-cases, inl, inr,
}
use pi_dotfiles.SmartContext.Session.{SessionEntry}
use pi_dotfiles.SmartContext.History.{
  up_to, query_page, query_snapshot, query_history, HistoryRequest, Paging, run_query,
}

abbrev pub paging_of : HistoryRequest → Option Paging
paging_of (HistoryRequest.lists p) = some p
paging_of (HistoryRequest.searches query p) = some p
paging_of (HistoryRequest.reads id offset limit) = none

up_to-append :
    (id : Text) (branch new front : List SessionEntry)
    → up_to id branch ≡ some front
    → up_to id (branch ++ new) ≡ some front
unfolding up_to
up_to-append id [] new front h = cc
up_to-append id (e ∷ es) new front h = elim (Option-cases (up_to id es)) [
  | inl miss ↦ ground arith
  | inr (f, hit) ↦ ground (arith, up_to-append id es new f hit)
]

query_snapshot-append :
    (branch new front : List SessionEntry) (query : Option Text) (p : Paging) (id : Text)
    → up_to id branch ≡ some front
    → query_snapshot (branch ++ new) query p (some id) ≡ query_snapshot branch query p (some id)
unfolding query_snapshot
query_snapshot-append branch new front query p id found =
    ground (arith, up_to-append id branch new front found)

query_page-append :
    (branch new front : List SessionEntry) (query : Option Text) (p : Paging) (id : Text)
    → p.snapshot_id ≡ some id
    → up_to id branch ≡ some front
    → query_page (branch ++ new) query p ≡ query_page branch query p
unfolding query_page
query_page-append branch new front query p id given found =
    ap (query_snapshot (branch ++ new) query p) given
    ∙ query_snapshot-append branch new front query p id found
    ∙ sym (ap (query_snapshot branch query p) given)

-- A list or search request with the snapshot of an entry of the branch gets the same answer after
-- any entries were appended to the branch.
pub snapshot_stable :
    (branch new front : List SessionEntry) (request : HistoryRequest) (p : Paging) (id : Text)
    → paging_of request ≡ some p
    → p.snapshot_id ≡ some id
    → up_to id branch ≡ some front
    → query_history (branch ++ new) request ≡ query_history branch request
unfolding query_history run_query
snapshot_stable branch new front (HistoryRequest.lists q) p id paged given found =
    ground (arith, query_page-append branch new front none p id given found)
snapshot_stable branch new front (HistoryRequest.searches query q) p id paged given found =
    ground (arith, query_page-append branch new front (some query) p id given found)
snapshot_stable branch new front (HistoryRequest.reads _ _ _) p id paged given found = cc
