-- ===== src/Migrater/Progress.antt =====
-- The progress events of a transfer, and `ProgressBuffer` of src/migrater/progress.py. Its methods
-- hold the lock throughout, so each is one step.
use native.Mathlib.Nat.{zero-add, suc-add}
use mathlib.Core.List.{append-nil, append_assoc}
use ca_project.Common.{
  ap, sym, ℕ, zero, suc, ◌+◌, ◌-◌, ◌≤◌, ◌≡◌, refl, List, [], ◌∷◌, ◌++◌, length, drop, arith,
  length-append, length-drop,
}
use ca_project.Common.Int.{ℤ}

-- A quotient of whole numbers, before it is rounded to a float.
pub record Ratio : Type 0 where
  pub over : ℕ
  pub under : ℕ

-- The dict that `token_bucket_copy` hands to its callback.
pub record Progress : Type 0 where
  pub timestamp : Ratio
  pub bytes_copied : ℕ
  pub total_bytes : ℕ
  pub remaining_bytes : ℕ
  pub interval_seconds : Ratio
  pub interval_throughput_bps : Ratio
  pub average_throughput_bps : Ratio
  pub configured_rate_bps : ℤ
  pub chunk_size_bytes : ℕ

pub record ProgressBuffer {ℓ} (A : Type ℓ) : Type ℓ where
  pub maxlen : ℕ
  pub items : List A

module _ {ℓ} {A : Type ℓ} where
  abbrev pub new_buffer : ℕ → ProgressBuffer A
  new_buffer maxlen = record { maxlen = maxlen; items = [] }

  -- `deque.append`: past `maxlen`, the oldest items go.
  unfoldable pub add : A → ProgressBuffer A → ProgressBuffer A
  add message b =
      let items = b.items ++ message ∷ [] in
      record b { items = drop (length items - b.maxlen) items }

  -- `pop`: all items, and the empty buffer
  unfoldable pub pop : ProgressBuffer A → List A × ProgressBuffer A
  pop b = (b.items, record b { items = [] })

  unfoldable pub add_all : List A → ProgressBuffer A → ProgressBuffer A
  unfolding add
  add_all [] b = b
  add_all (m ∷ ms) b = add_all ms (add m b)

  -- the last `n` items
  abbrev pub latest : ℕ → List A → List A
  latest n xs = drop (length xs - n) xs

  drop-all : (xs : List A) (n : ℕ) → length xs ≤ n → drop n xs ≡ []
  drop-all [] zero h = refl
  drop-all [] (suc n) h = refl
  drop-all (x ∷ xs) zero h = absurd (omega arith)
  drop-all (x ∷ xs) (suc n) h = drop-all xs n (omega arith)

  drop-append_le : (n : ℕ) (xs ys : List A) → n ≤ length xs → drop n (xs ++ ys) ≡ drop n xs ++ ys
  drop-append_le zero xs ys h = refl
  drop-append_le (suc n) [] ys h = absurd (omega arith)
  drop-append_le (suc n) (x ∷ xs) ys h = drop-append_le n xs ys (omega arith)

  drop-drop : (m n : ℕ) (xs : List A) → drop m (drop n xs) ≡ drop (n + m) xs
  drop-drop m zero xs = rw zero-add
  drop-drop zero (suc n) [] = rw suc-add
  drop-drop (suc m) (suc n) [] = rw suc-add
  drop-drop m (suc n) (x ∷ xs) = rw suc-add (drop-drop m n xs)

  add-latest :
      (n : ℕ) (xs : List A) (x : A) → latest n (latest n xs ++ x ∷ []) ≡ latest n (xs ++ x ∷ [])
  add-latest n xs x =
      rw (← drop-append_le (length xs - n) xs (x ∷ []) (omega arith), drop-drop)
        (ap (λ k. drop k (xs ++ x ∷ []))
          (omega (arith, length-drop (length xs - n) (xs ++ x ∷ []), length-append xs (x ∷ []))))

  items-add_all :
      (ms xs : List A) (b : ProgressBuffer A)
      → b.items ≡ latest b.maxlen xs
      → ((add_all ms b).items ≡ latest b.maxlen (xs ++ ms)) × ((add_all ms b).maxlen ≡ b.maxlen)
  unfolding add_all add
  items-add_all [] xs b h = (rw append-nil h, refl)
  items-add_all (m ∷ ms) xs b h =
      rw (← append_assoc xs (m ∷ []) ms)
        (items-add_all ms (xs ++ m ∷ []) (add m b) (rw h (add-latest b.maxlen xs m)))

  -- Whatever is added between two calls of `pop`, the second returns the last `maxlen` messages in
  -- the order in which they were added, and leaves the buffer empty: memory is bounded, and only
  -- the oldest are dropped.
  pub pop-add_all :
      (n : ℕ) (ms : List A)
      → ((pop (add_all ms (new_buffer n))).0 ≡ latest n ms)
        × (length (pop (add_all ms (new_buffer n))).0 ≤ n)
        × ((pop (add_all ms (new_buffer n))).1 ≡ new_buffer n)
  unfolding pop
  pop-add_all n ms =
      let (items, maxlen) =
        items-add_all ms [] (new_buffer n) (sym (drop-all [] (0 - n) (omega arith))) in
      (items, rw items (omega (arith, length-drop (length ms - n) ms)), rw maxlen)
