-- ===== src/Orchestrator/Start/Configured.antt =====
-- The policy that the command line asks for passes its asserts, or the start fails.
use ca_project.Common.{◌*◌, ◌≡◌, some}
use ca_project.Common.Dict.{Dict}
use ca_project.Float.{Float, of_nat}
use ca_project.Orchestrator.Policy.{Policy, no_limit, fixed_rate}
use ca_project.Orchestrator.Policy.Decisions.{IsConfigured}
use ca_project.Orchestrator.Policy.Allocation.{bandwidth}
use ca_project.Orchestrator.Start.{PolicyClass, no_limit_policy, fixed_rate_policy}

module _ {F : Type 0} ⦃o : Float F⦄ where
  -- No-limit and fixed-rate are the policies of their classes' defaults, whatever the bandwidth of
  -- the command line is; every other policy has what its asserts check, and that bandwidth.
  abbrev pub IsBuilt : PolicyClass → F → Policy F → Type 0
  IsBuilt no_limit_policy pfs p = p ≡ no_limit
  IsBuilt fixed_rate_policy pfs p = p ≡ fixed_rate (of_nat (1 * 1024 * 1024 * 1024))
  IsBuilt _ pfs p = IsConfigured p × (bandwidth p ≡ some pfs)
