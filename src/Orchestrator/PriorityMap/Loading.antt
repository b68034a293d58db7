-- ===== src/Orchestrator/PriorityMap/Loading.antt =====
-- What a priority map that loads is like.
use ca_project.Common.{String, ◌≡◌, refl, Option, none, some, Result, ok, raise, ◌>>=◌, arith, []}
use ca_project.Common.Dict.{Dict, get, put, get-put}
use ca_project.Float.{Float, of_nat, nought, ◌≺◌}
use ca_project.Float.Laws.{IsOrdered}
use ca_project.Orchestrator.PriorityMap.{
  Json, Fields, no_fields, field, object, number, get_field, as_number, positive_number, as_object,
  load_workers, load_priority_map,
}

bind-eq-ok {κ} :
    {V W : Type κ} (m : Result V) (next : V → Result W) {w : W}
    → (m >>= next) ≡ ok w
    → (v : V) × (m ≡ ok v) × (next v ≡ ok w)
bind-eq-ok (raise e) next done = cc
bind-eq-ok (ok v) next done = (v, refl, done)

module _ {F : Type 0} ⦃o : Float F⦄ (laws : IsOrdered F) where
  positive_number-pos : (v : Option F) {x : F} → positive_number v ≡ ok x → nought ≺ x
  positive_number-pos none h = cc
  positive_number-pos (some y) {x} h = ground (arith, laws.lt-eq-not-le nought y)

  -- All weights are above zero.
  abbrev pub ArePositive : Dict F → Type 0
  ArePositive d = (k : String) (x : F) → get k d ≡ some x → nought ≺ x

  load_workers-pos :
      (d : Dict F) (fs : Fields F) {e : Dict F}
      → ArePositive d
      → load_workers d fs ≡ ok e
      → ArePositive e
  unfolding load_workers
  load_workers-pos d no_fields h q = λ k x found. h k x (ground arith)
  load_workers-pos d (field id weight fs) h q =
      let (x, read, rest) = bind-eq-ok (positive_number (as_number weight)) _ q in
      load_workers-pos (put id x d) fs
        (λ k y found.
          ground (arith, get-put id k x d, h k y, positive_number-pos (as_number weight) read))
        rest

  -- A priority map that loads has a default above zero and no weight that is not.
  -- The floats meet the laws of order.
  pub load_priority_map-pos :
      (loaded : Result (Json F)) (priorities : Dict F) (default_priority : F)
      → load_priority_map loaded ≡ ok (priorities, default_priority)
      → (nought ≺ default_priority) × ArePositive priorities
  unfolding load_priority_map get
  load_priority_map-pos loaded priorities default_priority q =
      let (value, _, q1) = bind-eq-ok loaded _ q in
      let (fs, _, q2) = bind-eq-ok (as_object value) _ q1 in
      let (d, d_read, q3) =
        bind-eq-ok (positive_number (as_number (get_field "default" (number (of_nat 1)) fs))) _
          q2 in
      let (workers, _, q4) =
        bind-eq-ok (as_object (get_field "workers" (object no_fields) fs)) _ q3 in
      let (e, e_read, q5) = bind-eq-ok (load_workers [] workers) _ q4 in
      let d_pos : nought ≺ d = positive_number-pos _ d_read in
      let e_pos : ArePositive e = load_workers-pos [] workers (λ k x found. cc) e_read in
      (ground arith, λ k x found. e_pos k x (ground arith))
