-- ===== src/SmartContext/Recovery/Seed.antt =====
-- What `recoverySeed` of smart-context/checkpoint.ts carries over a reset.
use pi_dotfiles.Prelude.{
  ◌≡◌, refl, ap, ◌∙◌, true, some, List, [], ◌∷◌, ◌++◌, Text, join, concat, includes, starts_with,
  arith,
}
use pi_dotfiles.SmartContext.Session.{SessionEntry}
use pi_dotfiles.SmartContext.Archive.{HistoryItem, history_items}
use pi_dotfiles.SmartContext.Checkpoint.{SavedCheckpoint, find_last}
use pi_dotfiles.SmartContext.Recovery.{
  request_parts, checkpoint_parts, seed_parts, is_user_item, request_line, checkpoint_text,
  recovery_seed,
}

starts_with-append : (p x y : Text) → starts_with p x ≡ true → starts_with p (x ++ y) ≡ true
starts_with-append [] x y h = refl
starts_with-append (c ∷ p) [] y h = absurd cc
starts_with-append (c ∷ p) (d ∷ x) y h = ground (arith, starts_with-append p x y)

starts_with_self : (p : Text) → starts_with p p ≡ true
starts_with_self [] = refl
starts_with_self (c ∷ p) = ground (arith, starts_with_self p)

includes_nothing : (y : Text) → includes [] y ≡ true
unfolding includes
includes_nothing [] = refl
includes_nothing (c ∷ y) = refl

includes_self : (p : Text) → includes p p ≡ true
unfolding includes
includes_self [] = refl
includes_self (c ∷ p) = ground (arith, starts_with_self (c ∷ p))

includes-left : (p x y : Text) → includes p x ≡ true → includes p (x ++ y) ≡ true
unfolding includes
includes-left [] [] y h = includes_nothing y
includes-left (c ∷ p) [] y h = absurd cc
includes-left p (d ∷ x) y h = ground (arith, includes-left p x y, starts_with-append p (d ∷ x) y)

includes-right : (p x y : Text) → includes p y ≡ true → includes p (x ++ y) ≡ true
unfolding includes
includes-right p [] y h = h
includes-right p (d ∷ x) y h = ground (arith, includes-right p x y h)

-- A part of the list that includes a text.
data Has (p : Text) : List Text → Type 0 where
  here : {t : Text} {ts : List Text} → includes p t ≡ true → Has p (t ∷ ts)
  there : {t : Text} {ts : List Text} → Has p ts → Has p (t ∷ ts)

concat-Has : (p : Text) (ts : List Text) → Has p ts → includes p (concat ts) ≡ true
concat-Has p [] h = elim h [ ]
concat-Has p (t ∷ ts) (here h) = includes-left p t (concat ts) h
concat-Has p (t ∷ ts) (there h) = includes-right p t (concat ts) (concat-Has p ts h)

join-Has : (p separator : Text) (ts : List Text) → Has p ts → includes p (join separator ts) ≡ true
unfolding join
join-Has p separator [] h = elim h [ ]
join-Has p separator (t ∷ []) (here h) = h
join-Has p separator (t ∷ []) (there h) = elim h [ ]
join-Has p separator (t ∷ u ∷ ts) (here h) =
    includes-left p t (separator ++ join separator (u ∷ ts)) h
join-Has p separator (t ∷ u ∷ ts) (there h) =
    includes-right p t (separator ++ join separator (u ∷ ts))
      (includes-right p separator (join separator (u ∷ ts)) (join-Has p separator (u ∷ ts) h))

request_line-Has : (i : HistoryItem) → includes i.id (request_line (some i)) ≡ true
unfolding request_line
request_line-Has i = concat-Has i.id (request_parts i) (there (here (includes_self i.id)))

checkpoint_text-Has : (c : SavedCheckpoint) → includes c.note.text (checkpoint_text (some c)) ≡ true
unfolding checkpoint_text
checkpoint_text-Has c =
    concat-Has c.note.text (checkpoint_parts c)
      (there (there (there (there (there (there (there (here (includes_self c.note.text)))))))))

-- The seed holds the whole text of the checkpoint it is given, and the identifier of the last item
-- of the user in the branch's archive.
pub seed_holds :
    (branch : List SessionEntry) (c : SavedCheckpoint) (request : HistoryItem)
    → find_last is_user_item (history_items branch) ≡ some request
    → (includes c.note.text (recovery_seed branch (some c)) ≡ true)
      × (includes request.id (recovery_seed branch (some c)) ≡ true)
unfolding recovery_seed
seed_holds branch c request h =
    let line = ap (λ o. includes request.id (request_line o)) h ∙ request_line-Has request in
    let parts = seed_parts branch (some c) (history_items branch) in
    (
      join-Has c.note.text (10 ∷ 10 ∷ []) parts
          (there (there (there (there (here (checkpoint_text-Has c)))))),
      join-Has request.id (10 ∷ 10 ∷ []) parts (there (there (there (here line)))),
    )
