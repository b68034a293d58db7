-- ===== src/Checkpointing/Deltas.antt =====
-- What the incremental wrapper of src/backup/checkpointing does to the model.
use text.Mathlib.TextEquality.{eq_iff}
use ca_project.Common.{
  ℕ, String, ◌≡◌, refl, ap, ◌∙◌, true, false, none, some, [], ◌∷◌, Result, ok, ◌>>=◌, if◌then◌else◌,
  arith,
}
use ca_project.Common.Dict.{Dict, get, IsDistinct, AllEntries}
use ca_project.Checkpointing.{
  Torch, Manager, incremental, World, write, state, on_values, differences, delta_state, save,
}
use ca_project.Checkpointing.Restoring.{IsDirect, saved_path, stored, save-IsDirect, files-write}

module _ {V : Type 0} where
  -- Entries are found among others that do not have their keys.
  get-AllEntries :
      (k : String) (v : V) (d e : Dict V)
      → get k d ≡ none
      → AllEntries (λ j w. get j e ≡ some w) d
      → AllEntries (λ j w. get j ((k, v) ∷ e) ≡ some w) d
  unfolding get
  get-AllEntries k v [] e h all = tt
  get-AllEntries k v ((j, w) ∷ d) e h all =
      ground (arith, eq_iff k j, eq_iff j k, get-AllEntries k v d e)

  -- Each entry of a dict is found in it.
  get-IsDistinct : (d : Dict V) → IsDistinct d → AllEntries (λ k v. get k d ≡ some v) d
  unfolding get
  get-IsDistinct [] h = tt
  get-IsDistinct ((k, v) ∷ d) h =
      (ground (arith, eq_iff k k), get-AllEntries k v d d h.0 (get-IsDistinct d h.1))

module _ {T O C : Type 0} (t : Torch T O C) where
  -- each tensor less itself
  abbrev pub cancelled : Dict T → Dict T
  cancelled d = on_values t (λ x. t.sub x x) d

  differences-found :
      (d e : Dict T) → AllEntries (λ k x. get k e ≡ some x) d → differences t d e ≡ ok (cancelled d)
  unfolding differences
  differences-found [] e h = refl
  differences-found ((k, x) ∷ d) e h = rw (differences, h.0, differences-found d e h.1) refl

  -- `load_state_dict` copies into the live tensors what has their names, shapes and types.
  pub record CopiesInPlace : Type 0 where
    pub own : (d : Dict T) → t.load_model d d ≡ ok d
    pub like : (d : Dict T) → t.load_model (cancelled d) d ≡ ok (cancelled d)

  module _ (copies : CopiesInPlace) {m : Manager} (h : IsDirect m) (step : ℕ)
      (w : World T O C) where
    -- the world after a save of a model through the incremental wrapper
    abbrev after_save : Dict T → World T O C
    after_save d = record (write (saved_path t m step) (state step (stored t m d) w) w) {
      params = d;
      has_prev = true;
    }

    delta_saved :
        (delta : Dict T)
        → delta_state t w ≡ ok delta
        → t.load_model delta w.params ≡ ok delta
        → save t (incremental m) step w ≡ ok (after_save delta)
    unfolding save
    delta_saved delta known shown =
        ap (λ r. r >>= (λ d. t.load_model d w.params >>= save_shown)) known
        ∙ ap (λ r. r >>= save_shown) shown
        ∙ ap (λ r. r >>= load_back) (save-IsDirect t h step (record w { params = delta }))
        ∙ ap (λ r. r >>= keep (write (saved_path t m step) (state step (stored t m delta) w) w))
            (copies.own delta)
      where
        keep : World T O C → Dict T → Result (World T O C)
        keep saved restored = ok (record saved { params = restored; has_prev = true })

        load_back : World T O C → Result (World T O C)
        load_back saved = t.load_model saved.params saved.params >>= keep saved

        save_shown : Dict T → Result (World T O C)
        save_shown shown = save t m step (record w { params = shown }) >>= load_back

  -- The second save through the incremental wrapper destroys the model. `prev_state` is kept by
  -- reference, so it changes with the model: whatever the training makes of the parameters after a
  -- first save, which stores them whole, the second save stores each parameter less itself, and
  -- leaves that in the model. The wrapped manager saves at once, no parameter has the name of
  -- another, and `load_state_dict` copies in place.
  pub second_save :
      CopiesInPlace
      → {m : Manager} (h : IsDirect m) (step step' : ℕ) (w : World T O C) (params : Dict T)
      → w.has_prev ≡ false
      → IsDistinct params
      → (first second : World T O C) × (save t (incremental m) step w ≡ ok first)
        × (first.files (saved_path t m step) ≡ some (state step (stored t m w.params) w))
        × (save t (incremental m) step' (record first { params = params }) ≡ ok second)
        × (second.files (saved_path t m step')
            ≡ some (state step' (stored t m (cancelled params)) w))
        × (second.params ≡ cancelled params)
  second_save copies {m = m} h step step' w params fresh distinct =
      let first = after_save copies h step w w.params in
      let trained = record first { params = params } in
      let found = differences-found params params (get-IsDistinct params distinct) in
      (
        first,
        after_save copies h step' trained (cancelled params),
        delta_saved copies h step w w.params
            (ap (λ b. if b then differences t w.params w.params else ok w.params) fresh)
            (copies.own w.params),
        files-write t (saved_path t m step) (state step (stored t m w.params) w) w,
        delta_saved copies h step' trained (cancelled params) found (copies.like params),
        files-write t (saved_path t m step') (state step' (stored t m (cancelled params)) trained)
            trained,
        refl,
      )
