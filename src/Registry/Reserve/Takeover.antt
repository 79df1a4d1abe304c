-- ===== src/Registry/Reserve/Takeover.antt =====
-- Two calls of `reserveEntry` that both find one stale reservation.
use pi_dotfiles.Prelude.{
  ℕ, ◌≡◌, ap, ◌∙◌, Bool, true, false, Option, none, some, List, [], ◌∷◌, ◌++◌, Text, text_discrete,
  arith,
}
use pi_dotfiles.Prelude.Dict
use pi_dotfiles.Registry.Types.{RegistryEntry}
use pi_dotfiles.Registry.Directory.{
  Dir, Fault, file_at, read_decoded, create_exclusive, rename, remove,
}
use pi_dotfiles.Registry.Reserve.{Outcome, Pc, takeover_path, is_stale, reserve_step}
use pi_dotfiles.Registry.Reserve.Alone.{path-ne-takeover, readable}
use pi_dotfiles.Registry.Reserve.Race.{Turn, Two, turn, run_two}

-- The directory after a takeover of the file `f`.
abbrev after_takeover : (path id : Text) → Option RegistryEntry → RegistryEntry → Dir → Dir
after_takeover path id f e dir = Dict.set text_discrete path (some e) (
    Dict.delete text_discrete (takeover_path path id)
      (Dict.set text_discrete (takeover_path path id) f (Dict.delete text_discrete path dir)))

cleared_path :
    (path id : Text) (f : Option RegistryEntry) (dir : Dir)
    → file_at path (
        Dict.delete text_discrete
          (takeover_path path id)
          (Dict.set text_discrete (takeover_path path id) f (Dict.delete text_discrete path dir)))
      ≡ none
cleared_path path id f dir =
    let apart = path-ne-takeover path id in
    ground (
      arith,
      apart,
      Dict.get-delete text_discrete (takeover_path path id) path
          (Dict.set text_discrete (takeover_path path id) f (Dict.delete text_discrete path dir)),
      Dict.get-set text_discrete (takeover_path path id) path f
          (Dict.delete text_discrete path dir),
      Dict.get-delete_self text_discrete path dir,
    )

abbrev turn_of : Bool → ℕ → Turn
turn_of first now = record { first_acts = first; fault = Fault.works; now = now }

-- The turns in which a call makes its directory, fails to create and inspects the file; and those in
-- which it takes the file over.
abbrev pub looks : Bool → ℕ → List Turn
looks first now = turn_of first now ∷ turn_of first now ∷ turn_of first now ∷ []

abbrev pub takes : Bool → ℕ → List Turn
takes first now = turn_of first now ∷ turn_of first now ∷ turn_of first now ∷ []

module _ (date_parse : Text → Option ℕ) (a b : RegistryEntry) (path id_a id_b : Text) (now : ℕ)
    (dir : Dir) (f : Option RegistryEntry) where
  first_looks :
      (pc : Pc)
      → file_at path dir ≡ some f
      → is_stale date_parse now (readable (some f)) ≡ true
      → run_two date_parse a b path id_a id_b
          (looks true now)
          (record { first = Pc.ensures; second = pc; dir = dir })
        ≡ record { first = Pc.takes_over; second = pc; dir = dir }
  unfolding run_two turn reserve_step create_exclusive read_decoded
  first_looks pc h s = ground (arith, h, s)

  second_looks :
      (pc : Pc)
      → file_at path dir ≡ some f
      → is_stale date_parse now (readable (some f)) ≡ true
      → run_two date_parse a b path id_a id_b
          (looks false now)
          (record { first = pc; second = Pc.ensures; dir = dir })
        ≡ record { first = pc; second = Pc.takes_over; dir = dir }
  unfolding run_two turn reserve_step create_exclusive read_decoded
  second_looks pc h s = ground (arith, h, s)

  first_takes :
      (pc : Pc)
      → file_at path dir ≡ some f
      → run_two date_parse a b path id_a id_b
          (takes true now)
          (record { first = Pc.takes_over; second = pc; dir = dir })
        ≡ record {
          first = Pc.ends Outcome.reserved;
          second = pc;
          dir = after_takeover path id_a f a dir;
        }
  unfolding run_two turn reserve_step create_exclusive rename remove
  first_takes pc h = let gone = cleared_path path id_a f dir in ground (arith, h, gone)

  second_takes :
      (pc : Pc)
      → file_at path dir ≡ some f
      → run_two date_parse a b path id_a id_b
          (takes false now)
          (record { first = pc; second = Pc.takes_over; dir = dir })
        ≡ record {
          first = pc;
          second = Pc.ends Outcome.reserved;
          dir = after_takeover path id_b f b dir;
        }
  unfolding run_two turn reserve_step create_exclusive rename remove
  second_takes pc h = let gone = cleared_path path id_b f dir in ground (arith, h, gone)

-- Both look at the file; then the first takes it over, and then the second.
abbrev pub both_take : ℕ → List Turn
both_take now = looks true now ++ (looks false now ++ (takes true now ++ takes false now))

-- If the name has a stale reservation, both calls can reserve it: when both have looked before either
-- takes over, the second one's takeover moves away the file that the first has just written, both are
-- told that the name is theirs, and the first one's entry is lost.
pub both_reserve :
    (date_parse : Text → Option ℕ) (a b : RegistryEntry) (path id_a id_b : Text) (now : ℕ)
    (dir : Dir) (f : Option RegistryEntry)
    → file_at path dir ≡ some f
    → is_stale date_parse now (readable (some f)) ≡ true
    → let s =
        run_two date_parse a b path id_a id_b
          (both_take now)
          (record { first = Pc.ensures; second = Pc.ensures; dir = dir }) in
      (s.first ≡ Pc.ends Outcome.reserved)
      × (s.second ≡ Pc.ends Outcome.reserved)
      × (file_at path s.dir ≡ some (some b))
unfolding run_two
both_reserve date_parse a b path id_a id_b now dir f h s =
    let go = run_two date_parse a b path id_a id_b in
    let dir_a = after_takeover path id_a f a dir in
    let here : file_at path dir_a ≡ some (some a) =
      Dict.get-set_self text_discrete path (some a) _ in
    let start : Two = record { first = Pc.ensures; second = Pc.ensures; dir = dir } in
    let finish : Two = record {
      first = Pc.ends Outcome.reserved;
      second = Pc.ends Outcome.reserved;
      dir = after_takeover path id_b (some a) b dir_a;
    } in
    let whole : go (both_take now) start ≡ finish =
      ap (λ u. go (takes false now) (go (takes true now) (go (looks false now) u)))
        (first_looks date_parse a b path id_a id_b now dir f Pc.ensures h s)
      ∙ ap (λ u. go (takes false now) (go (takes true now) u))
          (second_looks date_parse a b path id_a id_b now dir f Pc.takes_over h s)
      ∙ ap (go (takes false now))
          (first_takes date_parse a b path id_a id_b now dir f Pc.takes_over h)
      ∙ second_takes date_parse a b path id_a id_b now dir_a (some a) (Pc.ends Outcome.reserved)
          here in
    (
      ap (λ u. u.first) whole,
      ap (λ u. u.second) whole,
      ap (λ u. file_at path u.dir) whole ∙ Dict.get-set_self text_discrete path (some b) _,
    )
