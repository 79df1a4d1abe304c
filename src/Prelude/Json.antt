-- ===== src/Prelude/Json.antt =====
-- JSON values, as the sources take them apart. A text that is parsed and a value that is printed stand
-- for the value itself. The keys of an object come in the order of `Object.entries`.
use Prim.Native.Nat.{ℕ}
use mathlib.Core.Path.{◌≡◌, refl, ap}
use mathlib.Core.Bool.{Bool}
use mathlib.Core.List.{List, [], ◌∷◌}
use mathlib.Core.Option.{Option, none, some}
use pi_dotfiles.Prelude.Tests.{Text, text_discrete}
use pi_dotfiles.Prelude.Lists.{pick}

-- `number` is an integer that is not negative, and `other_number` any other number.
mutual
  pub data Value : Type 0 where
    null other_number : Value
    boolean : Bool → Value
    number : ℕ → Value
    string : Text → Value
    array : Items → Value
    object : Fields → Value

  pub data Items : Type 0 where
    nil : Items
    item : Value → Items → Items

  pub data Fields : Type 0 where
    last : Fields
    field : Text → Value → Fields → Fields

abbrev pub items_of : Items → List Value
items_of nil = []
items_of (item v vs) = v ∷ items_of vs

abbrev pub items_from : List Value → Items
items_from [] = nil
items_from (v ∷ vs) = item v (items_from vs)

abbrev pub fields_of : Fields → List (Text × Value)
fields_of last = []
fields_of (field k v fs) = (k, v) ∷ fields_of fs

abbrev pub fields_from : List (Text × Value) → Fields
fields_from [] = last
fields_from ((k, v) ∷ fs) = field k v (fields_from fs)

pub fields_of-fields_from : (fs : List (Text × Value)) → fields_of (fields_from fs) ≡ fs
fields_of-fields_from [] = refl
fields_of-fields_from ((k, v) ∷ fs) = ap (λ rest. (k, v) ∷ rest) (fields_of-fields_from fs)

-- `record.key`, and `undefined` where there is none.
abbrev pub lookup : Text → List (Text × Value) → Option Value
lookup k [] = none
lookup k ((j, v) ∷ fs) = pick (text_discrete j k) (some v) (lookup k fs)

-- `asRecord(value)`: the fields of an object that is no array.
abbrev pub as_record : Value → Option (List (Text × Value))
as_record (object fs) = some (fields_of fs)
as_record _ = none
