-- ===== src/Relay/Bounds.antt =====
-- The size of the snapshot that web-herdr-relay/normalization.ts makes of a branch.
use mathlib.Core.List.{Perm}
use pi_dotfiles.Prelude.{
  ℕ, suc, zero, ◌+◌, ◌-◌, ◌≤◌, ◌<◌, ◌≡◌, ◌⊎◌, inl, inr, refl, ap, subst, sym, length, Bool, true,
  false, leb, ◌&&◌, if◌then◌else◌, List, [], ◌∷◌, Text, drop, take_last, is_empty, arith,
}
use pi_dotfiles.Prelude.Sort.{InOrder, InOrder-drop, sort-InOrder, sort-Perm}
use pi_dotfiles.Prelude.Json.{Value, Items, items_of}
use pi_dotfiles.Relay.Data.{RelayMessage, RelayTool, RelaySnapshot}
use pi_dotfiles.Relay.Extract.{Runtime}
use pi_dotfiles.Relay.Branch.{
  maximum_relay_snapshot_bytes, empty_snapshot_size, Sizes, bound_items, bound_snapshot,
  chronological, collected_entries, tools_in, branch_messages, branch_tools,
  normalize_active_branch,
}

module _ {A : Type 0} (size : A → ℕ) where
  -- The length of the items of a JSON array, with the commas between them.
  unfoldable pub array_size : List A → ℕ
  array_size [] = 0
  array_size (a ∷ []) = size a
  array_size (a ∷ b ∷ items) = size a + (1 + array_size (b ∷ items))

  array_size_step :
      (a : A) (items : List A)
      → array_size (a ∷ items) ≡ array_size items + (size a + (if is_empty items then 0 else 1))
  unfolding array_size
  array_size_step a [] = omega arith
  array_size_step a (b ∷ items) = omega arith

  -- `kept` is the longest end of the items that fits beside `bytes`: with the item before it, where
  -- there is one, it does not fit.
  unfoldable pub IsLongestFit : (bytes : ℕ) → (items kept : List A) → Type 0
  IsLongestFit bytes items kept =
      ((n : ℕ) × (kept ≡ drop n items)
        × ((n ≡ 0)
            ⊎ ((m : ℕ) × (n ≡ suc m)
                × (maximum_relay_snapshot_bytes < bytes + array_size (drop m items)))))
      × (bytes + array_size kept ≤ maximum_relay_snapshot_bytes)

  -- What the loop knows after some items: the bytes it has used, that it goes on only where it kept
  -- all of them, and that it stopped only where all of them do not fit.
  Progress : (bytes : ℕ) → List A → (List A × ℕ × Bool) → Type 0
  Progress bytes items (kept, used, goes_on) =
      IsLongestFit bytes items kept
      × (used ≡ bytes + array_size kept)
      × (goes_on ≡ true → kept ≡ items)
      × (goes_on ≡ false → maximum_relay_snapshot_bytes < bytes + array_size items)

  -- One more item before items that all fit.
  grown :
      (a : A) (items kept : List A) (bytes used total : ℕ) (fits : Bool)
      → Progress bytes items (kept, used, true)
      → total ≡ used + (size a + (if is_empty kept then 0 else 1))
      → (fits ≡ true → total ≤ maximum_relay_snapshot_bytes)
      → (fits ≡ false → maximum_relay_snapshot_bytes < total)
      → Progress bytes (a ∷ items) (if fits then (a ∷ kept, total, true) else (kept, used, false))
  unfolding Progress IsLongestFit
  grown a items kept bytes used total true (((n, at, room), le), u, same, stop) t short long =
      let whole = ap (λ l. a ∷ l) (same refl) in
      let sum : total ≡ bytes + array_size (a ∷ kept) =
        omega (arith, array_size_step a kept, u, t) in
      (((0, whole, inl refl), omega (arith, sum, short refl)), sum, λ _. whole, λ ff. absurd cc)
  grown a items kept bytes used total false (((n, at, room), le), u, same, stop) t short long =
      let whole = ap (λ l. array_size (a ∷ l)) (same refl) in
      let over : maximum_relay_snapshot_bytes < bytes + array_size (a ∷ items) =
        omega (arith, array_size_step a kept, u, t, whole, long refl) in
      (((1, same refl, inr (0, refl, over)), le), u, λ tt. absurd cc, λ _. over)

  -- The end that starts one item earlier, in a list with one item more.
  one_more :
      (a : A) (items : List A) (bytes n : ℕ)
      → maximum_relay_snapshot_bytes < bytes + array_size (a ∷ items)
      → (n ≡ 0)
        ⊎ ((m : ℕ) × (n ≡ suc m)
            × (maximum_relay_snapshot_bytes < bytes + array_size (drop m items)))
      → maximum_relay_snapshot_bytes < bytes + array_size (drop n (a ∷ items))
  one_more a items bytes zero over room = over
  one_more a items bytes (suc k) over (inl e) = absurd (omega (arith, e))
  one_more a items bytes (suc k) over (inr (m, e, h)) =
      subst (λ i. maximum_relay_snapshot_bytes < bytes + array_size (drop i items))
        (omega (arith, e)) h

  -- One more item before items that do not all fit.
  stopped :
      (a : A) (items kept : List A) (bytes used : ℕ)
      → Progress bytes items (kept, used, false)
      → Progress bytes (a ∷ items) (kept, used, false)
  unfolding Progress IsLongestFit
  stopped a items kept bytes used (((n, at, room), le), u, same, stop) =
      let over : maximum_relay_snapshot_bytes < bytes + array_size (a ∷ items) =
        omega (arith, array_size_step a items, stop refl) in
      (
        ((suc n, at, inr (n, refl, one_more a items bytes n over room)), le),
        u,
        λ tt. absurd cc,
        λ _. over,
      )

  extended :
      (a : A) (items kept : List A) (bytes used : ℕ) (goes_on : Bool)
      → Progress bytes items (kept, used, goes_on)
      → (let total = used + (size a + (if is_empty kept then 0 else 1)) in
          Progress bytes (a ∷ items) (
            if goes_on && leb total maximum_relay_snapshot_bytes
            then (a ∷ kept, total, true)
            else (kept, used, false)))
  extended a items kept bytes used false p = stopped a items kept bytes used p
  extended a items kept bytes used true p =
      let total = used + (size a + (if is_empty kept then 0 else 1)) in
      grown a items kept bytes used total (leb total maximum_relay_snapshot_bytes) p refl
        (λ yes. ground arith) (λ no. ground arith)

  bound_items-Progress :
      (items : List A) (bytes : ℕ)
      → bytes ≤ maximum_relay_snapshot_bytes
      → Progress bytes items (bound_items size items bytes)
  unfolding bound_items Progress IsLongestFit array_size
  bound_items-Progress [] bytes le =
      (((0, refl, inl refl), omega (arith, le)), omega arith, λ _. refl, λ ff. absurd cc)
  bound_items-Progress (a ∷ items) bytes le =
      let (kept, used, goes_on) = bound_items size items bytes in
      extended a items kept bytes used goes_on (bound_items-Progress items bytes le)

-- The length of the JSON text of a snapshot.
unfoldable pub snapshot_size : Sizes → RelaySnapshot → ℕ
snapshot_size sizes s =
    empty_snapshot_size
    + (array_size sizes.message_size s.messages + array_size sizes.tool_size s.tools)

-- The two lists of a snapshot are the longest ends that fit, and together they are within the limit.
bound_snapshot-fits :
    (sizes : Sizes) (messages : List RelayMessage) (tools : List RelayTool)
    → (let s = bound_snapshot sizes messages tools in
        IsLongestFit sizes.message_size empty_snapshot_size messages s.messages
        × IsLongestFit sizes.tool_size
            (empty_snapshot_size + array_size sizes.message_size s.messages)
            tools
            s.tools
        × (snapshot_size sizes s ≤ maximum_relay_snapshot_bytes))
unfolding bound_snapshot snapshot_size Progress IsLongestFit
bound_snapshot-fits sizes messages tools =
    let (kept, bytes, _) = bound_items sizes.message_size messages empty_snapshot_size in
    let (m, used, _, _) =
      bound_items-Progress sizes.message_size messages empty_snapshot_size (omega arith) in
    let (_, le) = m in
    let (t, _, _, _) = bound_items-Progress sizes.tool_size tools bytes (omega (arith, used, le)) in
    let bounded = (bound_items sizes.tool_size tools bytes).0 in
    let t' = subst (λ b. IsLongestFit sizes.tool_size b tools bounded) used t in
    let (_, total) = t' in (m, t', omega (arith, total))

timed-InOrder :
    {A : Type 0} (timestamp : A → ℕ) (items : List A)
    → InOrder timestamp (chronological timestamp items)
unfolding chronological
timed-InOrder timestamp items =
    sort-InOrder (λ a x. leb (timestamp a) (timestamp x)) timestamp (λ a x t. ground arith)
      (λ a x f. ground arith) items

timed-Perm :
    {A : Type 0} (timestamp : A → ℕ) (items : List A) → Perm (chronological timestamp items) items
unfolding chronological
timed-Perm timestamp items = sort-Perm (λ a x. leb (timestamp a) (timestamp x)) items

-- The longest end of a list in the order of time is in the order of time.
fit-InOrder :
    {A : Type 0} (size timestamp : A → ℕ) (bytes limit : ℕ) (items kept : List A)
    → IsLongestFit size bytes (take_last limit items) kept
    → InOrder timestamp items
    → InOrder timestamp kept
unfolding IsLongestFit
fit-InOrder size timestamp bytes limit items kept ((n, at, _), _) o =
    subst (InOrder timestamp) (sym at) (
      InOrder-drop timestamp n (take_last limit items)
        (InOrder-drop timestamp (length items - limit) items o))

-- Here the messages and tools of a branch are those that its retained entries give. Sorted by time,
-- the messages of the snapshot are the longest end of the last 240 messages that fits into 1,500,000
-- bytes of JSON, its tools are the longest end of the last 80 tools that fits beside the messages, and
-- the JSON text of the whole is within the limit. Both lists of the snapshot are in the order of time.
pub normalize_active_branch-fits :
    (runtime : Runtime) (sizes : Sizes) (entries : Items) (fallback : ℕ) (paths : List Text)
    → (let s = normalize_active_branch runtime sizes (Value.array entries) fallback paths in
        let given = collected_entries runtime fallback paths (items_of entries) in
        let messages = branch_messages runtime fallback paths (items_of entries) in
        let tools = branch_tools runtime fallback paths (items_of entries) in
        Perm messages given.messages
        × Perm tools (tools_in given.tools)
        × InOrder (λ m. m.timestamp) messages
        × InOrder (λ t. t.timestamp) tools
        × IsLongestFit sizes.message_size empty_snapshot_size (take_last 240 messages) s.messages
        × IsLongestFit sizes.tool_size
            (empty_snapshot_size + array_size sizes.message_size s.messages)
            (take_last 80 tools)
            s.tools
        × (snapshot_size sizes s ≤ maximum_relay_snapshot_bytes)
        × InOrder (λ m. m.timestamp) s.messages
        × InOrder (λ t. t.timestamp) s.tools)
unfolding normalize_active_branch branch_messages branch_tools
normalize_active_branch-fits runtime sizes entries fallback paths =
    let given = collected_entries runtime fallback paths (items_of entries) in
    let messages = branch_messages runtime fallback paths (items_of entries) in
    let tools = branch_tools runtime fallback paths (items_of entries) in
    let (m, t, total) = bound_snapshot-fits sizes (take_last 240 messages) (take_last 80 tools) in
    let timed = timed-InOrder (λ x. x.timestamp) given.messages in
    let timed_tools = timed-InOrder (λ x. x.timestamp) (tools_in given.tools) in
    (
      timed-Perm (λ x. x.timestamp) given.messages,
      timed-Perm (λ x. x.timestamp) (tools_in given.tools),
      timed,
      timed_tools,
      m,
      t,
      total,
      fit-InOrder sizes.message_size (λ x. x.timestamp) _ 240 messages _ m timed,
      fit-InOrder sizes.tool_size (λ x. x.timestamp) _ 80 tools _ t timed_tools,
    )
