-- ===== src/Registry/Reserve/Alone.antt =====
-- `reserveEntry` where no other process acts, against a specification on the files as a function.
use pi_dotfiles.Prelude.{
  ℕ, ◌≡◌, ◌≢◌, ap, ◌∙◌, Bool, true, false, Option, none, some, List, [], ◌∷◌, ◌++◌, Text, codes,
  text_discrete, pick, if◌then◌else◌, arith, length, length-append, Bool-cases, Option-cases, inl,
  inr,
}
use pi_dotfiles.Prelude.Dict
use pi_dotfiles.Registry.Types.{RegistryEntry}
use pi_dotfiles.Registry.Directory.{
  Dir, Fault, file_at, read_decoded, checked, create_exclusive, rename, remove,
}
use pi_dotfiles.Registry.Reserve.{Outcome, Pc, takeover_path, is_stale, reserve_step, run_alone}

pub path-ne-takeover : (path id : Text) → path ≢ takeover_path path id
path-ne-takeover path id h =
    let same = ap length h in
    let longer = length-append path (codes ".tmp-takeover-" ++ id) in
    absurd (omega (arith, same, longer))

-- The directory as a function.
abbrev pub Files : Type 0
Files = Text → Option (Option RegistryEntry)

abbrev pub view : Dir → Files
view dir j = file_at j dir

abbrev pub write : Text → RegistryEntry → Files → Files
write path e files j = pick (text_discrete path j) (some (some e)) (files j)

abbrev pub readable : Option (Option RegistryEntry) → Option RegistryEntry
readable none = none
readable (some none) = none
readable (some (some e)) = checked e

abbrev pub all_work : List Fault
all_work = Fault.works ∷ Fault.works ∷ Fault.works ∷ Fault.works ∷ Fault.works ∷ Fault.works ∷ []

module _ (date_parse : Text → Option ℕ) where
  -- A name is free if it has no file, or a stale reservation.
  abbrev pub is_free : ℕ → Option (Option RegistryEntry) → Bool
  is_free now none = true
  is_free now (some f) = is_stale date_parse now (readable (some f))

  abbrev pub reserve_spec : ℕ → Text → RegistryEntry → Files → Outcome × Files
  reserve_spec now path e files =
      if is_free now (files path)
      then (Outcome.reserved, write path e files)
      else (Outcome.already_registered, files)

  module _ (e : RegistryEntry) (path id : Text) (now : ℕ) (dir : Dir) where
    abbrev cleared : Option RegistryEntry → Dir
    cleared f =
        Dict.delete text_discrete (takeover_path path id)
          (Dict.set text_discrete (takeover_path path id) f (Dict.delete text_discrete path dir))

    get-cleared :
        (f : Option RegistryEntry) (j : Text)
        → file_at (takeover_path path id) dir ≡ none
        → file_at j (cleared f) ≡ pick (text_discrete path j) none (file_at j dir)
    get-cleared f j h = ground (
      arith,
      Dict.get-delete text_discrete (takeover_path path id) j
          (Dict.set text_discrete (takeover_path path id) f (Dict.delete text_discrete path dir)),
      Dict.get-set text_discrete (takeover_path path id) j f (Dict.delete text_discrete path dir),
      Dict.get-delete text_discrete path j dir,
    )

    abbrev outcome : Pc × Dir
    outcome = run_alone date_parse e path id all_work now Pc.ensures dir

    alone_missing :
        file_at path dir ≡ none
        → outcome ≡ (Pc.ends Outcome.reserved, Dict.set text_discrete path (some e) dir)
    unfolding run_alone reserve_step create_exclusive
    alone_missing h = ground (arith, h)

    alone_kept :
        (f : Option RegistryEntry)
        → file_at path dir ≡ some f
        → is_stale date_parse now (readable (some f)) ≡ false
        → outcome ≡ (Pc.ends Outcome.already_registered, dir)
    unfolding run_alone reserve_step create_exclusive read_decoded
    alone_kept f h s = ground (arith, h, s)

    alone_stale :
        (f : Option RegistryEntry)
        → file_at path dir ≡ some f
        → is_stale date_parse now (readable (some f)) ≡ true
        → file_at path (cleared f) ≡ none
        → outcome ≡ (Pc.ends Outcome.reserved, Dict.set text_discrete path (some e) (cleared f))
    unfolding run_alone reserve_step create_exclusive read_decoded rename remove
    alone_stale f h s g = ground (arith, h, s, g)

    -- A call that nothing interrupts and whose file system answers does what the specification does
    -- to the files as a function: the name is reserved if it has no file or a stale reservation, and
    -- else the call is rejected; no other file changes. The takeover's random name is unused.
    pub reserve_refines :
        file_at (takeover_path path id) dir ≡ none
        → let r = run_alone date_parse e path id all_work now Pc.ensures dir in
          let (result, files) = reserve_spec now path e (view dir) in
          (r.0 ≡ Pc.ends result) × ((j : Text) → view r.1 j ≡ files j)
    reserve_refines unused = elim (Option-cases (file_at path dir)) [
      | inl miss ↦
          let run = alone_missing miss in
          (
            ap (λ r. r.0) run ∙ ground (arith, miss),
            λ j.
                ap (λ r. view r.1 j) run
                ∙ ground (arith, miss, Dict.get-set text_discrete path j (some e) dir),
          )
      | inr (f, hit) ↦ elim (Bool-cases (is_stale date_parse now (readable (some f)))) [
        | inr s ↦
            let run = alone_kept f hit s in
            (
              ap (λ r. r.0) run ∙ ground (arith, hit, s),
              λ j. ap (λ r. view r.1 j) run ∙ ground (arith, hit, s),
            )
        | inl s ↦
            let gone : file_at path (cleared f) ≡ none = get-cleared f path unused ∙ ground arith in
            let run = alone_stale f hit s gone in
            (
              ap (λ r. r.0) run ∙ ground (arith, hit, s),
              λ j.
                  ap (λ r. view r.1 j) run
                  ∙ ground (
                    arith,
                    hit,
                    s,
                    Dict.get-set text_discrete path j (some e) (cleared f),
                    get-cleared f j unused,
                  ),
            )
      ]
    ]
