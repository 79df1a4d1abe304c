-- ===== src/Notify/Members.antt =====
-- The members of a completion group of herdr-subagent/notifications.ts and their reports.
use pi_dotfiles.Prelude.{
  ◌+◌, ◌≡◌, ◌≤◌, ◌<◌, refl, sym, subst, ap, ◌∙◌, true, not, ◌&&◌, Option, none, some, List, [], ◌∷◌,
  map, Text, arith, text_discrete, length, All, keep, pick,
}
use pi_dotfiles.Prelude.Dict
use pi_dotfiles.Prelude.Dict.{is_some}
use pi_dotfiles.Prelude.KeySet
use pi_dotfiles.Prelude.Keys.{keys, has-keys, keys-set, length-keys}
use pi_dotfiles.Notify.Types.{NotificationDelivery, CompletionGroup}
use pi_dotfiles.Notify.Groups.{records_of, delivery_records_for, remaining_keys}

abbrev pub with_report : NotificationDelivery → CompletionGroup → CompletionGroup
with_report d g = record g { completed = Dict.set text_discrete d.key d g.completed }

-- The report that a group has for a key, if any.
abbrev pub stored_report : CompletionGroup → Text → Option NotificationDelivery
stored_report g k = Dict.get text_discrete k g.completed

-- The report for a key once one more report has come.
abbrev pub report_of : NotificationDelivery → CompletionGroup → Text → Option NotificationDelivery
report_of d g k = pick (text_discrete d.key k) (some d) (stored_report g k)

-- The keys of the members and those of the reports are sets, and every report is one of a member.
abbrev pub IsWellFormed : CompletionGroup → Type 0
IsWellFormed g =
    KeySet.IsDistinct text_discrete g.member_keys
    × KeySet.IsDistinct text_discrete (keys g.completed)
    × All (λ k. KeySet.has text_discrete k g.member_keys ≡ true) (keys g.completed)

records-stored :
    (ks : List Text) (m : List (Text × NotificationDelivery))
    → map some (records_of ks m) ≡ keep is_some (map (λ k. Dict.get text_discrete k m) ks)
unfolding records_of
records-stored [] m = refl
records-stored (k ∷ ks) m = ground (arith, records-stored ks m)

-- The records of a group are the reports that it has for its members, in the order of the members.
pub delivery_records-stored :
    (g : CompletionGroup)
    → map some (delivery_records_for g) ≡ keep is_some (map (stored_report g) g.member_keys)
unfolding delivery_records_for
delivery_records-stored g = records-stored g.member_keys g.completed

module _ (d : NotificationDelivery) (g : CompletionGroup) where
  stored-with_report : (k : Text) → stored_report (with_report d g) k ≡ report_of d g k
  stored-with_report k = Dict.get-set text_discrete d.key k d g.completed

  pub map-stored_report :
      (ks : List Text) → map (stored_report (with_report d g)) ks ≡ map (report_of d g) ks
  map-stored_report [] = refl
  map-stored_report (k ∷ ks) = ground (arith, stored-with_report k, map-stored_report ks)

  records-with_report :
      (ks : List Text)
      → map some (records_of ks (with_report d g).completed) ≡ keep is_some (map (report_of d g) ks)
  unfolding records_of
  records-with_report [] = refl
  records-with_report (k ∷ ks) = ground (arith, stored-with_report k, records-with_report ks)

  pub delivery_records-with_report :
      map some (delivery_records_for (with_report d g))
      ≡ keep is_some (map (report_of d g) g.member_keys)
  unfolding delivery_records_for
  delivery_records-with_report = records-with_report g.member_keys

  pub keep_reported :
      (ks : List Text)
      → All (λ k. is_some (report_of d g k) ≡ true) ks
      → keep is_some (map (report_of d g) ks) ≡ map (report_of d g) ks
  keep_reported [] a = refl
  keep_reported (k ∷ ks) (first, others) = ground (arith, first, keep_reported ks others)

  reported-keys :
      (ks : List Text)
      → All (λ k. is_some (report_of d g k) ≡ true) ks
      → All (λ k. KeySet.has text_discrete k (keys (with_report d g).completed) ≡ true) ks
  reported-keys [] a = tt
  reported-keys (k ∷ ks) (first, others) = (
    has-keys text_discrete k (with_report d g).completed
        ∙ ap is_some (stored-with_report k)
        ∙ first,
    reported-keys ks others,
  )

  -- If all members have reported then their number is reached.
  pub length-reported-le :
      IsWellFormed g
      → All (λ k. is_some (report_of d g k) ≡ true) g.member_keys
      → length g.member_keys ≤ length (with_report d g).completed
  length-reported-le (members, _, _) a =
      let completed = (with_report d g).completed in
      omega (
        arith,
        KeySet.length-distinct-le text_discrete g.member_keys (keys completed) members
            (reported-keys g.member_keys a),
        length-keys completed,
      )

  -- While a member has not reported, the number of the members is not reached.
  pub length-missing-lt :
      (k : Text)
      → IsWellFormed g
      → KeySet.has text_discrete d.key g.member_keys ≡ true
      → KeySet.has text_discrete k g.member_keys ≡ true
      → report_of d g k ≡ none
      → length (with_report d g).completed < length g.member_keys
  length-missing-lt k (_, distinct, inside) member there missing =
      let completed = (with_report d g).completed in
      let same = keys-set text_discrete d.key d g.completed in
      omega (
        arith,
        KeySet.length-distinct-lt text_discrete k (keys completed) g.member_keys
            (subst (KeySet.IsDistinct text_discrete) (sym same)
              (KeySet.add-IsDistinct text_discrete d.key (keys g.completed) distinct))
            (subst (All (λ j. KeySet.has text_discrete j g.member_keys ≡ true)) (sym same) (
              KeySet.add-All text_discrete (λ j. KeySet.has text_discrete j g.member_keys ≡ true)
                d.key (keys g.completed) member inside))
            (has-keys text_discrete k completed ∙ ap is_some (stored-with_report k ∙ missing))
            there,
        length-keys completed,
      )

-- Exactly the members that have no report.
unfoldable pub IsRemaining : CompletionGroup → List Text → Type 0
IsRemaining g rest =
    (k : Text)
    → KeySet.has text_discrete k rest
      ≡ (KeySet.has text_discrete k g.member_keys && not (is_some (stored_report g k)))

module _ (g : CompletionGroup) where
  has-remaining :
      (ks : List Text) (k : Text)
      → KeySet.has text_discrete k (keep (λ j. not (is_some (stored_report g j))) ks)
        ≡ (KeySet.has text_discrete k ks && not (is_some (stored_report g k)))
  unfolding KeySet.has
  has-remaining [] k = refl
  has-remaining (j ∷ ks) k = ground (arith, has-remaining ks k)

  pub remaining_keys-IsRemaining : IsRemaining g (remaining_keys g)
  unfolding remaining_keys IsRemaining
  remaining_keys-IsRemaining = has-remaining g.member_keys

  length-records_remaining :
      (ks : List Text)
      → length (keep (λ j. not (is_some (stored_report g j))) ks)
          + length (records_of ks g.completed)
        ≡ length ks
  unfolding records_of
  length-records_remaining [] = omega arith
  length-records_remaining (k ∷ ks) = ground (arith, length-records_remaining ks)

  -- A member either has a report or remains.
  pub length-remaining :
      length (remaining_keys g) + length (delivery_records_for g) ≡ length g.member_keys
  unfolding remaining_keys delivery_records_for
  length-remaining = length-records_remaining g.member_keys
