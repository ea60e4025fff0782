-- ===== src/Prelude/Json.antt =====
-- A value that `JSON.parse` can give, and reads of it that an `unknown` goes through. Numbers are
-- natural: the frames that the models read carry no others.
use Prim.Native.Nat.{ℕ}
use Prim.Native.String.{String}
use mathlib.Core.Bool.{Bool}
use mathlib.Core.Option.{Option, none, some}
use fleet_prime_agent.Prelude.Tests.{◌==◌, if◌then◌else◌}

mutual
  pub data Value : Type 0 where
    null : Value
    bool : (answer : Bool) → Value
    num : (n : ℕ) → Value
    str : (s : String) → Value
    obj : (fields : Fields) → Value
    arr : (items : Items) → Value

  pub data Fields : Type 0 where
    end : Fields
    field : (key : String) (value : Value) (rest : Fields) → Fields

  pub data Items : Type 0 where
    nil : Items
    cons : (first : Value) (rest : Items) → Items

-- Property access on an object: `undefined` is `none`.
abbrev pub field_of : Fields → String → Option Value
field_of end k = none
field_of (field j v fs) k = if j == k then some v else field_of fs k

-- `isRecord(value)`, with the fields of the record.
abbrev pub record_of : Option Value → Option Fields
record_of (some (obj fs)) = some fs
record_of _ = none

-- `typeof value === "string"`
abbrev pub string_of : Option Value → Option String
string_of (some (str s)) = some s
string_of _ = none

-- `typeof value === "number"`
abbrev pub number_of : Option Value → Option ℕ
number_of (some (num n)) = some n
number_of _ = none

-- `a ?? b` on values: `null` counts as absent.
abbrev pub or_value : Option Value → Option Value → Option Value
or_value none b = b
or_value (some null) b = b
or_value (some v) b = some v
