-- ===== src/Orchestrator/Start.antt =====
-- The `__main__` block of src/orchestrator/server.py up to `serve`: the policy that the command
-- line asks for. Parsing the arguments themselves is argparse's; warnings are not modelled.
pub mod Configured
use text.Mathlib.Text.{◌==◌ as str_eq}
use ca_project.Common.{
  String, Bool, Option, none, some, if◌then◌else◌, Result, ok, raise, type_error, ◌>>=◌, [], ◌∷◌,
  ◌*◌,
}
use ca_project.Common.Dict.{Dict, get}
use ca_project.Float.{Float, of_nat}
use ca_project.Orchestrator.Policy.{
  Policy, no_limit, fixed_rate, uniform_fair_share, active_fair_share, new_static_priority,
  new_age_priority, new_epoch_priority,
}
use ca_project.Orchestrator.PriorityMap.{Json, load_priority_map}

-- the classes of `POLICIES`
pub data PolicyClass : Type 0 where
  no_limit_policy fixed_rate_policy uniform_fair_share_policy : PolicyClass
  active_fair_share_policy static_priority_policy : PolicyClass
  age_priority_policy epoch_priority_policy : PolicyClass

abbrev pub policies : Dict PolicyClass
policies =
    ("no-limit", no_limit_policy)
    ∷ ("fixed-rate", fixed_rate_policy)
    ∷ ("uniform-fair-share", uniform_fair_share_policy)
    ∷ ("active-fair-share", active_fair_share_policy)
    ∷ ("static-priority", static_priority_policy)
    ∷ ("age-priority", age_priority_policy)
    ∷ ("epoch-priority", epoch_priority_policy)
    ∷ []

abbrev pub default_policy : String
default_policy = "no-limit"

-- the parsed arguments; `priority_map` is what is read from the file, if one is given
pub record Args (F : Type 0) : Type 0 where
  pub policy : PolicyClass
  pub pfs_bw : F
  pub priority_map : Option (Result (Json F))
  pub alpha : F
  pub beta : F
  pub epoch_floor : F

module _ {F : Type 0} ⦃o : Float F⦄ where
  -- `policy_cls(pfs_bandwidth_bps=…)`: a class whose `__init__` has no such parameter raises
  abbrev pub with_bandwidth : PolicyClass → F → Result (Policy F)
  with_bandwidth no_limit_policy pfs = raise type_error
  with_bandwidth fixed_rate_policy pfs = raise type_error
  with_bandwidth uniform_fair_share_policy pfs = ok (uniform_fair_share pfs)
  with_bandwidth active_fair_share_policy pfs = ok (active_fair_share pfs)
  with_bandwidth static_priority_policy pfs = new_static_priority pfs [] (of_nat 1)
  with_bandwidth age_priority_policy pfs = new_age_priority pfs (o.decimal 5 1) (o.decimal 5 1)
  with_bandwidth epoch_priority_policy pfs = new_epoch_priority pfs (o.decimal 2 1)

  -- `policy_cls()`
  abbrev pub with_defaults : PolicyClass → Result (Policy F)
  with_defaults no_limit_policy = ok no_limit
  with_defaults fixed_rate_policy = ok (fixed_rate (of_nat (1 * 1024 * 1024 * 1024)))
  with_defaults cls = with_bandwidth cls (of_nat 1_000_000_000)

  -- `try: policy_cls(pfs_bandwidth_bps=…)`, `except TypeError: policy_cls()`
  abbrev pub or_defaults : PolicyClass → Result (Policy F) → Result (Policy F)
  or_defaults cls (ok p) = ok p
  or_defaults cls (raise type_error) = with_defaults cls
  or_defaults cls (raise e) = raise e

  abbrev pub priorities_from : Option (Result (Json F)) → Result (Dict F × F)
  priorities_from none = ok ([], of_nat 1)
  priorities_from (some loaded) = load_priority_map loaded

  build : PolicyClass → Args F → Result (Policy F)
  build static_priority_policy args = do
    (priorities, default_priority) ← priorities_from args.priority_map
    new_static_priority args.pfs_bw priorities default_priority
  build age_priority_policy args = new_age_priority args.pfs_bw args.alpha args.beta
  build epoch_priority_policy args = new_epoch_priority args.pfs_bw args.epoch_floor
  build cls args = or_defaults cls (with_bandwidth cls args.pfs_bw)

  unfoldable pub build_policy : Args F → Result (Policy F)
  unfolding build
  build_policy args = build args.policy args
