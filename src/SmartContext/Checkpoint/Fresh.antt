-- ===== src/SmartContext/Checkpoint/Fresh.antt =====
-- `requireCheckpoint` of smart-context/checkpoint.ts on branches that go on after a checkpoint.
use pi_dotfiles.Prelude.{
  ℕ, zero, suc, ◌≤◌, ◌<◌, ◌≡◌, ◌≢◌, refl, ap, ◌∙◌, Bool, true, false, Option, none, some, List, [],
  ◌∷◌, ◌++◌, Text, arith, length, drop, some_of, All, Bool-cases, Option-cases, inl, inr,
}
use pi_dotfiles.SmartContext.Session.{SessionEntry}
use pi_dotfiles.SmartContext.Checkpoint.{
  find_last, find_index, is_compaction, is_checkpoint, is_new_input, has_id, entries_after,
  current_window, SavedCheckpoint, CheckpointError, Outcome, ok, err, saved_of, read_checkpoint,
  check_saved, require_checkpoint,
}

module _ {ℓ} {A : Type ℓ} (p : A → Bool) where
  find_last-none : (xs : List A) → All (λ x. p x ≡ false) xs → find_last p xs ≡ none
  find_last-none [] h = refl
  find_last-none (x ∷ xs) (h, hs) = ground (arith, h, find_last-none xs hs)

  find_last-append :
      (xs ys : List A) → find_last p ys ≡ none → find_last p (xs ++ ys) ≡ find_last p xs
  find_last-append [] ys h = h
  find_last-append (x ∷ xs) ys h = ground (arith, find_last-append xs ys h)

  some_of-drop :
      (n : ℕ) (xs ys : List A) (y : A)
      → n ≤ length xs
      → p y ≡ true
      → some_of p (drop n (xs ++ (y ∷ ys))) ≡ true
  some_of-drop zero [] ys y h e = ground (arith, e)
  some_of-drop zero (x ∷ xs) ys y h e = ground (arith, some_of-drop zero xs ys y (omega arith) e)
  some_of-drop (suc n) [] ys y h e = absurd (omega arith)
  some_of-drop (suc n) (x ∷ xs) ys y h e = some_of-drop n xs ys y (omega arith) e

-- `findIndex` gives an index of the first part.
Within : (id : Text) → (xs ys : List SessionEntry) → Type 0
Within id xs ys = (i : ℕ) × (find_index (has_id id) (xs ++ ys) ≡ some i) × (i < length xs)

Within-here :
    (id : Text) (x : SessionEntry) (xs ys : List SessionEntry)
    → has_id id x ≡ true
    → Within id (x ∷ xs) ys
unfolding Within
Within-here id x xs ys e = (zero, ground (arith, e), omega arith)

Within-there :
    (id : Text) (x : SessionEntry) (xs ys : List SessionEntry)
    → Within id xs ys
    → Within id (x ∷ xs) ys
unfolding Within
Within-there id x xs ys (i, found, bound) = elim (Bool-cases (has_id id x)) [
  | inl e ↦ (zero, ground (arith, e), omega arith)
  | inr e ↦ (suc i, ground (arith, e, found), omega arith)
]

has_id_self : (id : Text) (e : SessionEntry) → e.id ≡ id → has_id id e ≡ true
has_id_self id e h = ground arith

find_last-Within :
    (id : Text) (xs ys : List SessionEntry) (c : SessionEntry) (p : SessionEntry → Bool)
    → find_last p xs ≡ some c
    → c.id ≡ id
    → Within id xs ys
find_last-Within id [] ys c p h e = absurd cc
find_last-Within id (x ∷ xs) ys c p h e = elim (Option-cases (find_last p xs)) [
  | inl miss ↦
      let same : x ≡ c = ground (arith, miss) in
      Within-here id x xs ys (has_id_self id x (ap (λ y. y.id) same ∙ e))
  | inr (y, hit) ↦
      let same : y ≡ c = ground (arith, hit) in
      Within-there id x xs ys (find_last-Within id xs ys c p (hit ∙ ap some same) e)
]

saved_of-id : (c : SessionEntry) (s : SavedCheckpoint) → saved_of c ≡ ok (some s) → c.id ≡ s.id
unfolding saved_of
saved_of-id c s h = ground arith

new_input-checkpoint : (e : SessionEntry) → is_new_input e ≡ true → is_checkpoint e ≡ false
unfolding is_new_input is_checkpoint
new_input-checkpoint e h = ground arith

after-Within :
    (id : Text) (xs ys : List SessionEntry) (e : SessionEntry)
    → Within id xs (e ∷ ys)
    → is_new_input e ≡ true
    → some_of is_new_input (entries_after id (xs ++ (e ∷ ys))) ≡ true
unfolding Within entries_after
after-Within id xs ys e (i, found, bound) h =
    ground (arith, found, some_of-drop is_new_input (suc i) xs ys e (omega arith) h)

check_saved-after :
    (branch : List SessionEntry) (saved : SavedCheckpoint)
    → some_of is_new_input (entries_after saved.id branch) ≡ true
    → (s : SavedCheckpoint) → check_saved branch saved ≢ ok s
unfolding check_saved
check_saved-after branch saved h s = ground (arith, h)

read_checkpoint-append :
    (branch new : List SessionEntry)
    → find_last is_checkpoint new ≡ none
    → read_checkpoint (branch ++ new) ≡ read_checkpoint branch
unfolding read_checkpoint
read_checkpoint-append branch new h = ground (arith, find_last-append is_checkpoint branch new h)

read_checkpoint-Within :
    (branch new : List SessionEntry) (saved : SavedCheckpoint)
    → read_checkpoint branch ≡ ok (some saved)
    → Within saved.id branch new
unfolding read_checkpoint
read_checkpoint-Within branch new saved h = elim (Option-cases (find_last is_checkpoint branch)) [
  | inl miss ↦ absurd (ground (arith, miss))
  | inr (c, hit) ↦
      find_last-Within saved.id branch new c is_checkpoint hit
        (saved_of-id c saved (ground (arith, hit)))
]

data ReadCases (branch : List SessionEntry) : Type 0 where
  failed : (e : CheckpointError) → read_checkpoint branch ≡ err e → ReadCases branch
  missing : read_checkpoint branch ≡ ok none → ReadCases branch
  found : (s : SavedCheckpoint) → read_checkpoint branch ≡ ok (some s) → ReadCases branch

read_cases : (branch : List SessionEntry) → ReadCases branch
read_cases branch = cases (read_checkpoint branch) refl
  where
    cases : (r : Outcome (Option SavedCheckpoint)) → read_checkpoint branch ≡ r → ReadCases branch
    cases (err e) h = failed e h
    cases (ok none) h = missing h
    cases (ok (some s)) h = found s h

-- Input that came after the last checkpoint of a branch makes every reset fail, whatever entries
-- other than checkpoints follow it.
pub input_after_rejects :
    (branch rest : List SessionEntry) (e : SessionEntry) (saved : SavedCheckpoint)
    → is_new_input e ≡ true
    → All (λ x. is_checkpoint x ≡ false) rest
    → require_checkpoint (branch ++ (e ∷ rest)) ≢ ok saved
unfolding require_checkpoint
input_after_rejects branch rest e saved input old =
    let none_new = find_last-none is_checkpoint (e ∷ rest) (new_input-checkpoint e input, old) in
    let same = read_checkpoint-append branch (e ∷ rest) none_new in
    elim (read_cases branch) [
      | failed x h ↦ ground (arith, same, h)
      | missing h ↦ ground (arith, same, h)
      | found s h ↦
          let place = read_checkpoint-Within branch (e ∷ rest) s h in
          let rejected =
            check_saved-after (branch ++ (e ∷ rest)) s (after-Within s.id branch rest e place input)
              saved in
          ground (arith, same, h, rejected)
    ]

check_saved-window :
    (branch : List SessionEntry) (saved s : SavedCheckpoint)
    → check_saved branch saved ≡ ok s
    → s.note.window_id ≡ current_window branch
unfolding check_saved
check_saved-window branch saved s h = ground (arith, h)

find_last-at :
    (p : SessionEntry → Bool) (xs rest : List SessionEntry) (c : SessionEntry)
    → p c ≡ true
    → find_last p rest ≡ none
    → find_last p (xs ++ (c ∷ rest)) ≡ some c
find_last-at p [] rest c h hs = ground (arith, h, hs)
find_last-at p (x ∷ xs) rest c h hs = ground (arith, find_last-at p xs rest c h hs)

current_window-compaction :
    (branch rest : List SessionEntry) (c : SessionEntry)
    → is_compaction c ≡ true
    → All (λ x. is_compaction x ≡ false) rest
    → current_window (branch ++ (c ∷ rest)) ≡ c.id
unfolding current_window
current_window-compaction branch rest c h hs =
    let at = find_last-at is_compaction branch rest c h (find_last-none is_compaction rest hs) in
    ground (arith, at)

-- A reset after a compaction takes only a checkpoint that names the window this compaction opened.
pub reset_names_window :
    (branch rest : List SessionEntry) (c : SessionEntry) (saved : SavedCheckpoint)
    → is_compaction c ≡ true
    → All (λ x. is_compaction x ≡ false) rest
    → require_checkpoint (branch ++ (c ∷ rest)) ≡ ok saved
    → saved.note.window_id ≡ c.id
unfolding require_checkpoint
reset_names_window branch rest c saved opened later h =
    let window = current_window-compaction branch rest c opened later in
    elim (read_cases (branch ++ (c ∷ rest))) [
      | failed x r ↦ absurd (ground (arith, r))
      | missing r ↦ absurd (ground (arith, r))
      | found s r ↦ check_saved-window (branch ++ (c ∷ rest)) s saved (ground (arith, r)) ∙ window
    ]
