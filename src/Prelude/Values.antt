-- ===== src/Prelude/Values.antt =====
-- JSON values as `json.loads` gives them, and how the code reads them.
use Prim.Native.Nat.{ℕ}
use mathlib.Core.Bool.{Bool, true, false}
use mathlib.Core.Option.{Option, none, some}
use jota_gateway.Prelude.Tests.{if◌then◌else◌, ◌==◌}
use jota_gateway.Prelude.Texts.{Text, Text_eq}

mutual
  pub data Json : Type 0 where
    null : Json
    boolean : Bool → Json
    number : ℕ → Json
    text : Text → Json
    array : Items → Json
    object : Fields → Json

  pub data Items : Type 0 where
    nil : Items
    cons : Json → Items → Items

  pub data Fields : Type 0 where
    end : Fields
    field : Text → Json → Fields → Fields

-- `d.get(key)`: `None` stands for a missing key too.
unfoldable pub get : Text → Fields → Json
get k end = null
get k (field j v fs) = if j == k then v else get k fs

-- `d.get(key, default)`.
unfoldable pub get_default : Text → Json → Fields → Json
get_default k d end = d
get_default k d (field j v fs) = if j == k then v else get_default k d fs

abbrev pub is_text : Text → Json → Bool
is_text s (text t) = s == t
is_text s _ = false

abbrev pub is_false : Json → Bool
is_false (boolean false) = true
is_false _ = false

abbrev pub is_true : Json → Bool
is_true (boolean true) = true
is_true _ = false

-- `isinstance(value, str)`.
abbrev pub text? : Json → Option Text
text? (text t) = some t
text? _ = none
