-- ===== src/Registry/Reserve/Race.antt =====
-- Two calls of `reserveEntry` for one name.
use pi_dotfiles.Prelude.{
  ℕ, ◌+◌, ◌≤◌, ◌≡◌, refl, ap, ◌∙◌, Bool, false, Option, none, some, List, [], ◌∷◌, Text,
  text_discrete, All, if◌then◌else◌, arith, Bool-cases, Option-cases, inl, inr,
}
use pi_dotfiles.Prelude.Dict
use pi_dotfiles.Registry.Types.{RegistryEntry}
use pi_dotfiles.Registry.Directory.{Dir, Fault, file_at, read_decoded, create_exclusive}
use pi_dotfiles.Registry.Reserve.{Outcome, Pc, is_stale, reserve_step}
use pi_dotfiles.Registry.Reserve.Alone.{readable}

-- Which of the two acts next, how the file system answers, and the clock.
pub record Turn : Type 0 where
  pub first_acts : Bool
  pub fault : Fault
  pub now : ℕ

pub record Two : Type 0 where
  pub first : Pc
  pub second : Pc
  pub dir : Dir

-- What a call holds that has reserved the name.
abbrev pub holds : Pc → ℕ
holds (Pc.ends Outcome.reserved) = 1
holds _ = 0

abbrev pub present : Option (Option RegistryEntry) → ℕ
present none = 0
present (some f) = 1

-- A call that takes nothing over.
abbrev IsCalm : Pc → Type 0
IsCalm Pc.takes_over = ⊥
IsCalm Pc.removes = ⊥
IsCalm Pc.retries = ⊥
IsCalm _ = Unit {0}

module _ (date_parse : Text → Option ℕ) (a b : RegistryEntry) (path id_a id_b : Text) where
  unfoldable pub turn : Turn → Two → Two
  turn t s =
      if t.first_acts
      then (let (pc, dir) = reserve_step date_parse a path id_a t.fault t.now s.first s.dir in
          record s { first = pc; dir = dir })
      else (let (pc, dir) = reserve_step date_parse b path id_b t.fault t.now s.second s.dir in
          record s { second = pc; dir = dir })

  unfoldable pub run_two : List Turn → Two → Two
  run_two [] s = s
  run_two (t ∷ ts) s = run_two ts (turn t s)

  -- A file that is not stale at any time up to the horizon.
  abbrev pub IsFresh : ℕ → Option (Option RegistryEntry) → Type 0
  IsFresh horizon f = is_stale date_parse horizon (readable f) ≡ false

  is_stale_mono :
      (now horizon : ℕ) (f : Option RegistryEntry)
      → now ≤ horizon
      → is_stale date_parse horizon f ≡ false
      → is_stale date_parse now f ≡ false
  unfolding is_stale
  is_stale_mono now horizon none h e = refl
  is_stale_mono now horizon (some f) h e = ground arith

  -- One step of a call that is calm, seen from the path's file.
  record Quiet (horizon : ℕ) (pc pc' : Pc) (dir dir' : Dir) : Type 0 where
    calm : IsCalm pc'
    fresh : IsFresh horizon (file_at path dir')
    counted : holds pc' + present (file_at path dir) ≤ holds pc + present (file_at path dir')

  read_decoded-readable : (dir : Dir) → read_decoded path dir ≡ readable (file_at path dir)
  unfolding read_decoded
  read_decoded-readable dir = elim (Option-cases (file_at path dir)) [
    | inl e ↦ ground (arith, e)
    | inr (none, e) ↦ ground (arith, e)
    | inr (some f, e) ↦ ground (arith, e)
  ]

  module _ (e : RegistryEntry) (id : Text) (horizon : ℕ)
      (new : IsFresh horizon (some (some e))) where
    create-Quiet :
        (fault : Fault) (now : ℕ) (dir : Dir)
        → IsFresh horizon (file_at path dir)
        → let (pc', dir') = reserve_step date_parse e path id fault now Pc.creates dir in
          Quiet horizon Pc.creates pc' dir dir'
    unfolding reserve_step create_exclusive
    create-Quiet Fault.breaks now dir f = record { calm = tt; fresh = f; counted = omega arith }
    create-Quiet Fault.works now dir f = elim (Option-cases (file_at path dir)) [
      | inl m ↦
          let set = Dict.get-set_self text_discrete path (some e) dir in
          record {
            calm = ground (arith, m);
            fresh = ground (arith, m, set, new);
            counted = ground (arith, m, set);
          }
      | inr (g, h) ↦ record {
        calm = ground (arith, h);
        fresh = ground (arith, h, f);
        counted = ground (arith, h);
      }
    ]
    create-Quiet Fault.tears now dir f = elim (Option-cases (file_at path dir)) [
      | inl m ↦
          let set = Dict.get-set_self text_discrete path none dir in
          record {
            calm = ground (arith, m);
            fresh = ground (arith, m, set);
            counted = ground (arith, m, set);
          }
      | inr (g, h) ↦ record {
        calm = ground (arith, h);
        fresh = ground (arith, h, f);
        counted = ground (arith, h);
      }
    ]

    inspect-Quiet :
        (fault : Fault) (now : ℕ) (dir : Dir)
        → now ≤ horizon
        → IsFresh horizon (file_at path dir)
        → let (pc', dir') = reserve_step date_parse e path id fault now Pc.inspects dir in
          Quiet horizon Pc.inspects pc' dir dir'
    unfolding reserve_step
    inspect-Quiet Fault.works now dir le f =
        let young = is_stale_mono now horizon (readable (file_at path dir)) le f in
        let read = ap (is_stale date_parse now) (read_decoded-readable dir) ∙ young in
        record {
          calm = ground (arith, read);
          fresh = ground (arith, read, f);
          counted = ground (arith, read);
        }
    inspect-Quiet Fault.breaks now dir le f = record { calm = tt; fresh = f; counted = omega arith }
    inspect-Quiet Fault.tears now dir le f = record { calm = tt; fresh = f; counted = omega arith }

    step-Quiet :
        (fault : Fault) (now : ℕ) (pc : Pc) (dir : Dir)
        → now ≤ horizon
        → IsCalm pc
        → IsFresh horizon (file_at path dir)
        → let (pc', dir') = reserve_step date_parse e path id fault now pc dir in
          Quiet horizon pc pc' dir dir'
    unfolding reserve_step
    step-Quiet Fault.works now Pc.ensures dir le c f = record {
      calm = tt;
      fresh = f;
      counted = omega arith;
    }
    step-Quiet Fault.breaks now Pc.ensures dir le c f = record {
      calm = tt;
      fresh = f;
      counted = omega arith;
    }
    step-Quiet Fault.tears now Pc.ensures dir le c f = record {
      calm = tt;
      fresh = f;
      counted = omega arith;
    }
    step-Quiet fault now Pc.creates dir le c f = create-Quiet fault now dir f
    step-Quiet fault now Pc.inspects dir le c f = inspect-Quiet fault now dir le f
    step-Quiet fault now Pc.takes_over dir le c f = elim c [ ]
    step-Quiet fault now Pc.removes dir le c f = elim c [ ]
    step-Quiet fault now Pc.retries dir le c f = elim c [ ]
    step-Quiet fault now (Pc.ends o) dir le c f = record {
      calm = tt;
      fresh = f;
      counted = omega arith;
    }

  -- Nobody takes over, the file is not stale, and who holds the name has a file.
  record IsSafe (horizon : ℕ) (s : Two) : Type 0 where
    first_calm : IsCalm s.first
    second_calm : IsCalm s.second
    fresh : IsFresh horizon (file_at path s.dir)
    counted : holds s.first + holds s.second ≤ present (file_at path s.dir)

  module _ (horizon : ℕ) (new_a : IsFresh horizon (some (some a)))
      (new_b : IsFresh horizon (some (some b))) where
    turn-IsSafe :
        (t : Turn) (s : Two) → t.now ≤ horizon → IsSafe horizon s → IsSafe horizon (turn t s)
    unfolding turn
    turn-IsSafe t s le i =
        let qa =
          step-Quiet a id_a horizon new_a t.fault t.now s.first s.dir le i.first_calm i.fresh in
        let qb =
          step-Quiet b id_b horizon new_b t.fault t.now s.second s.dir le i.second_calm i.fresh in
        elim (Bool-cases t.first_acts) [
          | inl e ↦
              rw (e, turn)
                (record {
                  first_calm = qa.calm;
                  second_calm = i.second_calm;
                  fresh = qa.fresh;
                  counted = omega (arith, qa.counted, i.counted);
                })
          | inr e ↦
              rw (e, turn)
                (record {
                  first_calm = i.first_calm;
                  second_calm = qb.calm;
                  fresh = qb.fresh;
                  counted = omega (arith, qb.counted, i.counted);
                })
        ]

    run_two-IsSafe :
        (ts : List Turn) (s : Two)
        → All (λ t. t.now ≤ horizon) ts
        → IsSafe horizon s
        → IsSafe horizon (run_two ts s)
    unfolding run_two
    run_two-IsSafe [] s h i = i
    run_two-IsSafe (t ∷ ts) s (h, hs) i = run_two-IsSafe ts (turn t s) hs (turn-IsSafe t s h i)

    -- Two processes that reserve one name at once, in whatever order they act and however the file
    -- system answers them, do not both get it, as long as no file of that name is a stale reservation:
    -- not the one that stands there, if any, and neither of the two that they write.
    pub one_reservation :
        (ts : List Turn) (dir : Dir)
        → All (λ t. t.now ≤ horizon) ts
        → IsFresh horizon (file_at path dir)
        → let s = run_two ts (record { first = Pc.ensures; second = Pc.ensures; dir = dir }) in
          holds s.first + holds s.second ≤ 1
    one_reservation ts dir times fresh =
        let i =
          run_two-IsSafe ts (record { first = Pc.ensures; second = Pc.ensures; dir = dir }) times
            (record { first_calm = tt; second_calm = tt; fresh = fresh; counted = omega arith }) in
        ground (arith, i.counted)
