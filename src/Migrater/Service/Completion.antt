-- ===== src/Migrater/Service/Completion.antt =====
-- The steps of a transfer of src/migrater/server.py, among whatever else happens.
use ca_project.Common.{ℕ, ◌≡◌, ◌≤◌, ◌<◌, refl, Bool, true, false, List, [], ◌∷◌, arith}
use ca_project.Float.{Float}
use ca_project.Migrater.Service.{
  Phase, absent, waiting, released, copying, closing, over, Migrater, Event, notifies, instructs,
  wakes, begins, reports, returns, closes, pops, samples, beats, disconnects, interrupts,
  notify_checkpoint_saved, handle_instruction, send_heartbeat, step, run,
}

-- how far a transfer has come
abbrev rank : Phase → ℕ
rank absent = 0
rank waiting = 1
rank released = 2
rank copying = 3
rank closing = 4
rank over = 5

all_over : (ph : Phase) → rank over ≤ rank ph → ph ≡ over
all_over over h = refl
all_over absent h = absurd (omega arith)
all_over waiting h = absurd (omega arith)
all_over released h = absurd (omega arith)
all_over copying h = absurd (omega arith)
all_over closing h = absurd (omega arith)

-- The first list is left when elements of the second are struck out.
pub data OccurIn {A : Type 0} : List A → List A → Type 0 where
  nothing : OccurIn [] []
  skips : {x : A} {xs ys : List A} → OccurIn xs ys → OccurIn xs (x ∷ ys)
  takes : {x : A} {xs ys : List A} → OccurIn xs ys → OccurIn (x ∷ xs) (x ∷ ys)

module _ {F : Type 0} where
  -- a report of a checkpoint
  abbrev pub is_notice : Event F → Bool
  is_notice (notifies size epoch total_epochs) = true
  is_notice e = false

  abbrev pub AreQuiet : List (Event F) → Type 0
  AreQuiet [] = Unit
  AreQuiet (e ∷ es) = (is_notice e ≡ false) × AreQuiet es

  -- what the thread of transfer `i` has to do from a place on
  abbrev pub to_do : ℕ → Phase → List (Event F)
  to_do i absent = []
  to_do i waiting = wakes i ∷ begins i ∷ returns i ∷ closes i ∷ []
  to_do i released = begins i ∷ returns i ∷ closes i ∷ []
  to_do i copying = returns i ∷ closes i ∷ []
  to_do i closing = closes i ∷ []
  to_do i over = []

module _ {F : Type 0} ⦃o : Float F⦄ where
  -- The transfer is at `ph` or further, and may go on.
  record IsPast (i : ℕ) (ph : Phase) (m : Migrater F) : Type 0 where
    pub far : rank ph ≤ rank (m.transfers i)
    pub may : m.transfer_allowed ≡ true

  step-may :
      (e : Event F) (m : Migrater F)
      → is_notice e ≡ false
      → m.transfer_allowed ≡ true
      → (step e m).transfer_allowed ≡ true
  unfolding step notify_checkpoint_saved handle_instruction send_heartbeat
  step-may (notifies size epoch total_epochs) m q h = cc
  step-may (instructs instruction) m q h = ground arith
  step-may (wakes j) m q h = ground arith
  step-may (begins j) m q h = ground arith
  step-may (reports j item) m q h = ground arith
  step-may (returns j) m q h = ground arith
  step-may (closes j) m q h = ground arith
  step-may pops m q h = ground arith
  step-may samples m q h = ground arith
  step-may beats m q h = ground arith
  step-may disconnects m q h = ground arith
  step-may interrupts m q h = ground arith

  step-far :
      (i : ℕ) (e : Event F) (m : Migrater F)
      → is_notice e ≡ false
      → rank (m.transfers i) ≤ rank ((step e m).transfers i)
  unfolding step notify_checkpoint_saved handle_instruction send_heartbeat
  step-far i (notifies size epoch total_epochs) m q = cc
  step-far i (instructs instruction) m q = ground arith
  step-far i (wakes j) m q = ground arith
  step-far i (begins j) m q = ground arith
  step-far i (reports j item) m q = ground arith
  step-far i (returns j) m q = ground arith
  step-far i (closes j) m q = ground arith
  step-far i pops m q = ground arith
  step-far i samples m q = ground arith
  step-far i beats m q = ground arith
  step-far i disconnects m q = ground arith
  step-far i interrupts m q = ground arith

  step-IsPast :
      (i : ℕ) (ph : Phase) (e : Event F) (m : Migrater F)
      → is_notice e ≡ false
      → IsPast i ph m
      → IsPast i ph (step e m)
  step-IsPast i ph e m q h = record {
    far = omega (arith, h.far, step-far i e m q);
    may = step-may e m q h.may;
  }

  -- A step of the thread takes the transfer on from where it is known to be.
  wakes-far :
      (i : ℕ) (m : Migrater F)
      → IsPast i waiting m
      → rank released ≤ rank ((step (wakes i) m).transfers i)
  unfolding step
  wakes-far i m h = ground (arith, h.far, h.may)

  begins-far :
      (i : ℕ) (m : Migrater F)
      → IsPast i released m
      → rank copying ≤ rank ((step (begins i) m).transfers i)
  unfolding step
  begins-far i m h = ground (arith, h.far)

  returns-far :
      (i : ℕ) (m : Migrater F)
      → IsPast i copying m
      → rank closing ≤ rank ((step (returns i) m).transfers i)
  unfolding step
  returns-far i m h = ground (arith, h.far)

  closes-far :
      (i : ℕ) (m : Migrater F)
      → IsPast i closing m
      → rank over ≤ rank ((step (closes i) m).transfers i)
  unfolding step
  closes-far i m h = ground (arith, h.far)

  run_far :
      (i : ℕ) (ph : Phase) (es : List (Event F)) (m : Migrater F)
      → AreQuiet es
      → IsPast i ph m
      → OccurIn (to_do i ph) es
      → 0 < rank ph
      → rank over ≤ rank ((run es m).transfers i)
  unfolding run
  run_far i absent [] m quiet h q live = absurd (omega (arith, live))
  run_far i waiting [] m quiet h q live = elim q [ ]
  run_far i released [] m quiet h q live = elim q [ ]
  run_far i copying [] m quiet h q live = elim q [ ]
  run_far i closing [] m quiet h q live = elim q [ ]
  run_far i over [] m quiet h q live = h.far
  run_far i absent (e ∷ es) m quiet h (skips q) live =
      run_far i absent es (step e m) quiet.1 (step-IsPast i absent e m quiet.0 h) q live
  run_far i waiting (e ∷ es) m quiet h (skips q) live =
      run_far i waiting es (step e m) quiet.1 (step-IsPast i waiting e m quiet.0 h) q live
  run_far i released (e ∷ es) m quiet h (skips q) live =
      run_far i released es (step e m) quiet.1 (step-IsPast i released e m quiet.0 h) q live
  run_far i copying (e ∷ es) m quiet h (skips q) live =
      run_far i copying es (step e m) quiet.1 (step-IsPast i copying e m quiet.0 h) q live
  run_far i closing (e ∷ es) m quiet h (skips q) live =
      run_far i closing es (step e m) quiet.1 (step-IsPast i closing e m quiet.0 h) q live
  run_far i over (e ∷ es) m quiet h (skips q) live =
      run_far i over es (step e m) quiet.1 (step-IsPast i over e m quiet.0 h) q live
  run_far i waiting (e ∷ es) m quiet h (takes q) live =
      run_far i released es (step e m) quiet.1
        (record { far = wakes-far i m h; may = step-may e m quiet.0 h.may }) q (omega arith)
  run_far i released (e ∷ es) m quiet h (takes q) live =
      run_far i copying es (step e m) quiet.1
        (record { far = begins-far i m h; may = step-may e m quiet.0 h.may }) q (omega arith)
  run_far i copying (e ∷ es) m quiet h (takes q) live =
      run_far i closing es (step e m) quiet.1
        (record { far = returns-far i m h; may = step-may e m quiet.0 h.may }) q (omega arith)
  run_far i closing (e ∷ es) m quiet h (takes q) live =
      run_far i over es (step e m) quiet.1
        (record { far = closes-far i m h; may = step-may e m quiet.0 h.may }) q (omega arith)

  -- A transfer is over when the steps that its thread still has to take have occurred in their order.
  pub steps_complete :
      (i : ℕ) (es : List (Event F)) (m : Migrater F)
      → m.transfers i ≡ waiting
      → m.transfer_allowed ≡ true
      → AreQuiet es
      → OccurIn (to_do i waiting) es
      → (run es m).transfers i ≡ over
  steps_complete i es m waits may quiet occur = all_over _ (
      run_far i waiting es m quiet (record { far = rw waits (omega arith); may = may }) occur
        (omega arith))
