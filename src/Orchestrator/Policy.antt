-- ===== src/Orchestrator/Policy.antt =====
-- The scheduling policies of src/orchestrator/scheduler.py. A policy is given the snapshot of the
-- cluster as a dict from worker id to state; `now` is what `time.time()` gave in the call.
pub mod Weights
pub mod Rates
pub mod Decisions
pub mod Sums
pub mod Allocation
pub mod Answers
pub mod Priority
pub mod Idle
use ca_project.Common.{
  ℕ, zero, suc, ◌*◌, String, Bool, true, false, ◌&&◌, Option, none, some, List, [], ◌∷◌, map,
  length, select, if◌then◌else◌, Result, ok, raise, check, assertion_error, ◌>>=◌, ◌>>◌,
}
use ca_project.Common.Int.{ℤ, pos, negsuc}
use ca_project.Common.Dict.{Dict, get, values}
use ca_project.Float.{Float, of_nat, nought, of_int, divide, larger, smaller, sum, maximum}
use ca_project.Protocol.{InstructionResponse, hold, start_flush}
use ca_project.Orchestrator.Cluster.{WorkerState}

pub data Policy (F : Type 0) : Type 0 where
  no_limit : Policy F
  fixed_rate : (rate : F) → Policy F
  uniform_fair_share : (pfs_bandwidth_bps : F) → Policy F
  active_fair_share : (pfs_bandwidth_bps : F) → Policy F
  static_priority : (pfs_bandwidth_bps : F) (priorities : Dict F) (default_priority : F) → Policy F
  age_priority : (pfs_bandwidth_bps alpha beta : F) → Policy F
  epoch_priority : (pfs_bandwidth_bps floor : F) → Policy F

-- `[f(x) for x in xs]`, where `f` may raise
pub traverse {ℓ} : {A : Type ℓ} {B : Type 0} → (A → Result B) → List A → Result (List B)
traverse f [] = ok []
traverse f (x ∷ xs) = do y ← f x; ys ← traverse f xs; ok (y ∷ ys)

module _ {F : Type 0} ⦃o : Float F⦄ where
  -- the constructors, with their asserts
  unfoldable pub new_static_priority : F → Dict F → F → Result (Policy F)
  new_static_priority pfs priorities default_priority = do
    check (o.lt nought default_priority) assertion_error
    ok (static_priority pfs priorities default_priority)

  unfoldable pub new_age_priority : F → F → F → Result (Policy F)
  new_age_priority pfs alpha beta = do
    check (o.le nought alpha && o.le nought beta) assertion_error
    check (o.lt nought (o.add alpha beta)) assertion_error
    ok (age_priority pfs alpha beta)

  unfoldable pub new_epoch_priority : F → F → Result (Policy F)
  new_epoch_priority pfs floor = do
    check (o.le nought floor && o.le floor (of_nat 1)) assertion_error
    ok (epoch_priority pfs floor)

  abbrev pub on_hold : InstructionResponse F
  on_hold = record { action = hold; rate_limit_bps = nought }

  abbrev pub flush : F → InstructionResponse F
  flush rate = record { action = start_flush; rate_limit_bps = rate }

  -- `w.checkpoint_size > 0`
  abbrev pub is_active : WorkerState F → Bool
  is_active w = o.lt nought w.checkpoint_size

  abbrev pub active_of : Dict (WorkerState F) → List (WorkerState F)
  active_of workers = select is_active (values workers)

  -- HOLD for a worker that is unknown or has nothing pending; the rest of `decide` for any other.
  abbrev pub if_pending :
      Option (WorkerState F)
      → (WorkerState F → Result (InstructionResponse F))
      → Result (InstructionResponse F)
  if_pending none k = ok on_hold
  if_pending (some w) k = if o.le w.checkpoint_size nought then ok on_hold else k w

  -- `AgePriorityPolicy.EPS`, `EpochPriorityPolicy.EPS`
  abbrev pub epsilon : F
  epsilon = o.decimal 1 6

  -- `StaticPriorityPolicy._weight`
  unfoldable pub static_weight : Dict F → F → String → F
  static_weight priorities default_priority worker_id =
      let w : F = elim (get worker_id priorities) [ none ↦ default_priority | some w ↦ w ] in
      if o.lt nought w then w else default_priority

  -- `(now - w.pending_since) if w.pending_since is not None else 0.0`
  abbrev pub age_of : F → Option F → F
  age_of now none = nought
  age_of now (some t) = o.sub now t

  -- `AgePriorityPolicy._priority`
  unfoldable pub age_weight : F → F → F → F → F → WorkerState F → Result F
  age_weight alpha beta now max_size max_age w = do
    size_norm ← (if o.lt nought max_size then divide w.checkpoint_size max_size else ok nought)
    age_norm ←
        (if o.lt nought max_age then divide (age_of now w.pending_since) max_age else ok nought)
    ok (larger (o.add (o.mul alpha size_norm) (o.mul beta age_norm)) epsilon)

  -- `epoch / total_epochs`, held between 0 and 1; 0 where the total is not positive
  abbrev pub progress_of : ℤ → ℤ → Result F
  progress_of epoch (negsuc n) = ok nought
  progress_of epoch (pos zero) = ok nought
  progress_of epoch (pos (suc n)) = do
    progress ← divide (of_int epoch) (of_nat (suc n))
    ok (larger nought (smaller progress (of_nat 1)))

  -- `EpochPriorityPolicy._priority`
  unfoldable pub epoch_weight : F → WorkerState F → Result F
  epoch_weight floor w = do
    progress ← progress_of w.epoch w.total_epochs
    ok (larger (o.add floor (o.mul (o.sub (of_nat 1) floor) progress)) epsilon)

  decide_no_limit : Result (InstructionResponse F)
  decide_no_limit = ok (flush (of_nat (1 * 1024 * 1024 * 1024)))

  decide_uniform : F → Dict (WorkerState F) → Result (InstructionResponse F)
  decide_uniform pfs [] = ok (flush nought)
  decide_uniform pfs (e ∷ workers) = do
    rate ← divide pfs (of_nat (length (e ∷ workers)))
    ok (flush rate)

  decide_active : F → String → Dict (WorkerState F) → Result (InstructionResponse F)
  decide_active pfs worker_id workers =
      if_pending (get worker_id workers)
        λ w. do rate ← divide pfs (of_nat (length (active_of workers))); ok (flush rate)

  decide_static : F → Dict F → F → String → Dict (WorkerState F) → Result (InstructionResponse F)
  decide_static pfs priorities default_priority worker_id workers =
      let weight : String → F = static_weight priorities default_priority in
      if_pending (get worker_id workers) λ w. do
        let total = sum (map (λ v. weight v.worker_id) (active_of workers))
        rate ← divide (o.mul pfs (weight worker_id)) total
        ok (flush rate)

  decide_age : F → F → F → F → String → Dict (WorkerState F) → Result (InstructionResponse F)
  decide_age pfs alpha beta now worker_id workers =
      let active : List (WorkerState F) = active_of workers in
      if_pending (get worker_id workers) λ w. do
        max_size ← maximum (map (λ v. v.checkpoint_size) active)
        max_age ← maximum (map (λ v. age_of now v.pending_since) active)
        priorities ← traverse (age_weight alpha beta now max_size max_age) active
        mine ← age_weight alpha beta now max_size max_age w
        rate ← divide (o.mul pfs mine) (sum priorities)
        ok (flush rate)

  decide_epoch : F → F → String → Dict (WorkerState F) → Result (InstructionResponse F)
  decide_epoch pfs floor worker_id workers = if_pending (get worker_id workers) λ w. do
    priorities ← traverse (epoch_weight floor) (active_of workers)
    mine ← epoch_weight floor w
    rate ← divide (o.mul pfs mine) (sum priorities)
    ok (flush rate)

  -- `policy.decide(worker_id, workers)`
  unfoldable pub decide :
      Policy F → F → String → Dict (WorkerState F) → Result (InstructionResponse F)
  unfolding decide_no_limit decide_uniform decide_active decide_static decide_age decide_epoch
      traverse
  decide no_limit now worker_id workers = decide_no_limit
  decide (fixed_rate rate) now worker_id workers = ok (flush rate)
  decide (uniform_fair_share pfs) now worker_id workers = decide_uniform pfs workers
  decide (active_fair_share pfs) now worker_id workers = decide_active pfs worker_id workers
  decide (static_priority pfs priorities default_priority) now worker_id workers =
      decide_static pfs priorities default_priority worker_id workers
  decide (age_priority pfs alpha beta) now worker_id workers =
      decide_age pfs alpha beta now worker_id workers
  decide (epoch_priority pfs floor) now worker_id workers = decide_epoch pfs floor worker_id workers
