-- ===== src/Orchestrator/Policy/Priority.antt =====
-- Who gets more: the order of the rates that the priority policies grant.
use ca_project.Common.{ℕ, suc, ◌≤◌, String, ◌≡◌, true, false, some, ok, arith, Bool-cases, inl, inr}
use ca_project.Common.Int.{pos}
use ca_project.Common.Dict.{Dict, get}
use ca_project.Float.{Float, of_nat, nought, ◌≼◌}
use ca_project.Float.Laws.{IsOrdered}
use ca_project.Float.Folds.{larger_mono, larger_mono_right, smaller_mono}
use ca_project.Orchestrator.Cluster.{WorkerState}
use ca_project.Orchestrator.Policy.{
  Policy, age_priority, epoch_priority, is_active, epsilon, flush, decide,
}
use ca_project.Orchestrator.Policy.Weights.{ratio, age_share, epoch_share, sum_active-pos}
use ca_project.Orchestrator.Policy.Decisions.{IsConfigured, weight, rate, weight-pos, decide-flush}

module _ {F : Type 0} ⦃o : Float F⦄ (laws : IsOrdered F) where
  open laws use {le_refl, le_trans, add_mono, sub_mono, mul_mono, div_mono}

  ratio_mono : (x y m : F) → x ≼ y → ratio x m ≼ ratio y m
  ratio_mono x y m h = elim (Bool-cases (o.lt nought m)) [
    | inl above ↦ rw above (div_mono x y m h above)
    | inr no_max ↦ rw no_max (le_refl nought)
  ]

  -- A larger checkpoint that has waited at least as long weighs at least as much.
  age_share_mono :
      (alpha beta now max_size max_age : F) (v w : WorkerState F) (s t : F)
      → nought ≼ alpha
      → nought ≼ beta
      → v.checkpoint_size ≼ w.checkpoint_size
      → v.pending_since ≡ some s
      → w.pending_since ≡ some t
      → t ≼ s
      → age_share alpha beta now max_size max_age v ≼ age_share alpha beta now max_size max_age w
  age_share_mono alpha beta now max_size max_age v w s t a b size since since' older =
      rw (since, since')
        (larger_mono laws _ _ epsilon (
          add_mono _ _ _ _ (mul_mono alpha _ _ a (ratio_mono _ _ max_size size)) (
            mul_mono beta _ _ b
              (ratio_mono _ _ max_age (sub_mono now now t s (le_refl now) older)))))

  -- Of two workers with the same number of epochs, the one that has done at least as many weighs at
  -- least as much.
  epoch_share_mono :
      (floor : F) (v w : WorkerState F) (a b n : ℕ)
      → floor ≼ of_nat 1
      → v.epoch ≡ pos a
      → w.epoch ≡ pos b
      → v.total_epochs ≡ pos (suc n)
      → w.total_epochs ≡ pos (suc n)
      → a ≤ b
      → epoch_share floor v ≼ epoch_share floor w
  epoch_share_mono floor v w a b n top done done' total total' h =
      rw (done, done', total, total')
        (larger_mono laws _ _ epsilon (
          add_mono _ _ _ _ (le_refl floor) (
            mul_mono _ _ _ (laws.sub_nonneg _ _ top) (
              larger_mono_right laws _ _ nought (
                smaller_mono laws _ _ (of_nat 1) (
                  div_mono _ _ _ (laws.of_nat_mono a b h)
                    (laws.decimal_pos (suc n) 0 (omega arith))))))))

  module _ (now : F) (workers : Dict (WorkerState F)) (j k : String) (v w : WorkerState F)
      (found : get j workers ≡ some v) (found' : get k workers ≡ some w) (named : v.worker_id ≡ j)
      (named' : w.worker_id ≡ k) (active : is_active v ≡ true) (active' : is_active w ≡ true) where
    -- Both workers are told to flush, and the second at no lower a rate.
    abbrev pub IsServedBefore : Policy F → Type 0
    IsServedBefore p =
        (r : F) × (s : F) × (decide p now j workers ≡ ok (flush r))
        × (decide p now k workers ≡ ok (flush s))
        × (r ≼ s)

    awake : (u : WorkerState F) → is_active u ≡ true → o.le u.checkpoint_size nought ≡ false
    awake u h = ground (arith, laws.lt-eq-not-le nought u.checkpoint_size)

    -- Under the age policy, of two workers with pending data, the one whose checkpoint is at least
    -- as large and has waited at least as long is told to flush at no lower a rate.
    -- Both stand in the snapshot under their own ids, the policy has passed its asserts, the
    -- bandwidth is not negative, and the floats meet the laws of order.
    pub age_priority_order :
        (pfs alpha beta s t : F)
        → IsConfigured (age_priority pfs alpha beta)
        → nought ≼ pfs
        → v.checkpoint_size ≼ w.checkpoint_size
        → v.pending_since ≡ some s
        → w.pending_since ≡ some t
        → t ≼ s
        → IsServedBefore (age_priority pfs alpha beta)
    age_priority_order pfs alpha beta s t c h size since since' older =
        let p : Policy F = age_priority pfs alpha beta in
        (
          rate p now workers v,
          rate p now workers w,
          decide-flush laws now j workers v found p c named (awake v active),
          decide-flush laws now k workers w found' p c named' (awake w active'),
          div_mono _ _ _
              (mul_mono pfs _ _ h
                (age_share_mono alpha beta now _ _ v w s t c.0 c.1 size since since' older))
              (sum_active-pos laws (weight p now workers) (weight-pos laws p c now workers) j
                workers v found active),
        )

    -- Under the epoch policy, of two workers with pending data and the same positive number of
    -- epochs, the one that has done at least as many is told to flush at no lower a rate.
    -- Both stand in the snapshot under their own ids, the policy has passed its asserts, the
    -- bandwidth is not negative, and the floats meet the laws of order.
    pub epoch_priority_order :
        (pfs floor : F) (a b n : ℕ)
        → IsConfigured (epoch_priority pfs floor)
        → nought ≼ pfs
        → v.epoch ≡ pos a
        → w.epoch ≡ pos b
        → v.total_epochs ≡ pos (suc n)
        → w.total_epochs ≡ pos (suc n)
        → a ≤ b
        → IsServedBefore (epoch_priority pfs floor)
    epoch_priority_order pfs floor a b n c h done done' total total' le =
        let p : Policy F = epoch_priority pfs floor in
        (
          rate p now workers v,
          rate p now workers w,
          decide-flush laws now j workers v found p c named (awake v active),
          decide-flush laws now k workers w found' p c named' (awake w active'),
          div_mono _ _ _
              (mul_mono pfs _ _ h (epoch_share_mono floor v w a b n c.1 done done' total total' le))
              (sum_active-pos laws (weight p now workers) (weight-pos laws p c now workers) j
                workers v found active),
        )
