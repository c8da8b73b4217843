-- ===== src/Common/Json.antt =====
-- The values of Python's untyped dicts, as the program stores them: JSON without floats and
-- negative numbers.
use Prim.Native.Nat.{ℕ}
use Prim.Native.String.{String}
use mathlib.Core.Path.{◌≡◌, refl, ap}
use mathlib.Core.Option.{Option, none, some}
use mathlib.Core.Bool.{Bool, true, false, not}
use mathlib.Core.List.{List, [], ◌∷◌}
use text.Mathlib.Text.{◌==◌}
use ai_agent_task_assistant.Common.Tests.{nat_eq, if◌then◌else◌}

mutual
  pub data Value : Type 0 where
    null : Value
    flag : Bool → Value
    number : ℕ → Value
    str : String → Value
    items : Values → Value
    fields : Fields → Value

  pub data Values : Type 0 where
    nil : Values
    cons : Value → Values → Values

  pub data Fields : Type 0 where
    end : Fields
    field : String → Value → Fields → Fields

abbrev pub field_list : Fields → List (String × Value)
field_list end = []
field_list (field k v fs) = (k, v) ∷ field_list fs

abbrev pub fields_of : List (String × Value) → Fields
fields_of [] = end
fields_of ((k, v) ∷ d) = field k v (fields_of d)

pub field_list-fields_of : (d : List (String × Value)) → field_list (fields_of d) ≡ d
field_list-fields_of [] = refl
field_list-fields_of ((k, v) ∷ d) = ap (λ r. (k, v) ∷ r) (field_list-fields_of d)

-- Python's `bool(v)`
unfoldable pub truthy : Value → Bool
truthy null = false
truthy (flag b) = b
truthy (number n) = not (nat_eq n 0)
truthy (str s) = not (s == "")
truthy (items nil) = false
truthy (items (cons _ _)) = true
truthy (fields end) = false
truthy (fields (field _ _ _)) = true

-- `dict(v or {})` for a value that may be missing; a truthy value that is no dict raises
abbrev pub dict_of : Option Value → Option (List (String × Value))
dict_of none = some []
dict_of (some (fields fs)) = some (field_list fs)
dict_of (some v) = if truthy v then none else some []

-- `str(v)` where a missing value is `default`; `render` is `str` on what is no text
abbrev pub text_of : (Value → String) → String → Option Value → String
text_of render default none = default
text_of render default (some (str s)) = s
text_of render default (some v) = render v

-- `a or b`, where a missing value is `None`
abbrev pub or_value : Option Value → Option Value → Option Value
or_value none o = o
or_value (some v) o = if truthy v then some v else o
