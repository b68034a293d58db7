-- ===== src/Orchestrator/PriorityMap.antt =====
-- `load_priority_map` of src/orchestrator/server.py. What `json.load` makes of the file, or its
-- exception, is a parameter.
pub mod Loading
use text.Mathlib.Text.{◌==◌ as str_eq}
use ca_project.Common.{
  String, Bool, true, false, not, ◌||◌, Option, none, some, if◌then◌else◌, Result, ok, raise, check,
  value_error, ◌>>=◌, ◌>>◌, [],
}
use ca_project.Common.Dict.{Dict, put}
use ca_project.Float.{Float, of_nat, nought}

-- A value of `json.load`. A key stands once among the fields of an object.
mutual
  pub data Json (F : Type 0) : Type 0 where
    null : Json F
    boolean : Bool → Json F
    number : F → Json F
    string : String → Json F
    array : Items F → Json F
    object : Fields F → Json F

  pub data Items (F : Type 0) : Type 0 where
    no_items : Items F
    item : Json F → Items F → Items F

  pub data Fields (F : Type 0) : Type 0 where
    no_fields : Fields F
    field : String → Json F → Fields F → Fields F

module _ {F : Type 0} where
  -- `data.get(key, fallback)`
  unfoldable pub get_field : String → Json F → Fields F → Json F
  get_field key fallback no_fields = fallback
  get_field key fallback (field k v fs) = if str_eq k key then v else get_field key fallback fs

  module _ ⦃o : Float F⦄ where
    -- the value of an `int` or a `float`; a Python `bool` is an `int`
    abbrev pub as_number : Json F → Option F
    as_number (number x) = some x
    as_number (boolean true) = some (of_nat 1)
    as_number (boolean false) = some nought
    as_number _ = none

    -- the number, unless `not isinstance(v, (int, float)) or v <= 0`
    abbrev pub positive_number : Option F → Result F
    positive_number none = raise value_error
    positive_number (some x) = if o.le x nought then raise value_error else ok x

    abbrev pub as_object : Json F → Result (Fields F)
    as_object (object fs) = ok fs
    as_object _ = raise value_error

    -- the loop over `workers.items()`
    unfoldable pub load_workers : Dict F → Fields F → Result (Dict F)
    load_workers priorities no_fields = ok priorities
    load_workers priorities (field worker_id weight fs) = do
      x ← positive_number (as_number weight)
      load_workers (put worker_id x priorities) fs

    unfoldable pub load_priority_map : Result (Json F) → Result (Dict F × F)
    load_priority_map loaded = do
      value ← loaded
      fs ← as_object value
      default_priority ← positive_number (as_number (get_field "default" (number (of_nat 1)) fs))
      workers ← as_object (get_field "workers" (object no_fields) fs)
      priorities ← load_workers [] workers
      ok (priorities, default_priority)
