-- ===== src/Tests/Wrapping.antt =====
-- Concrete runs for src/backup/checkpointing: a tensor is a number with its bits.
use ca_project.Common.{ℕ, ◌-◌, ◌*◌, ◌/◌, ◌==◌, ◌≡◌, refl, true, false, none, some, [], ◌∷◌, ok}
use ca_project.Common.Dict.{Dict, get, IsDistinct}
use ca_project.Checkpointing.{
  Torch, Manager, torch, decorator, asynchronous, compression, incremental, World, state, save,
  finish, load, load_state,
}
use ca_project.Checkpointing.Restoring.{
  around, threaded, compressed, base, saved_path, stored, kept, load-save,
}
use ca_project.Checkpointing.Deltas.{CopiesInPlace, cancelled, second_save}

record Tensor : Type 0 where
  pub bits : ℕ
  pub value : ℕ

-- `half` loses the last bit of a number
abbrev whole_torch : Torch Tensor ℕ ℕ
whole_torch = record {
  half = λ x. record { bits = 16; value = x.value / 2 * 2 };
  float = λ x. record x { bits = 32 };
  is_float32 = λ x. x.bits == 32;
  is_float16 = λ x. x.bits == 16;
  sub = λ x y. record x { value = x.value - y.value };
  load_model = λ saved live. ok saved;
  load_optimizer = λ saved live. ok saved;
  load_scheduler = λ saved live. ok saved;
  is_empty = λ c. c == 0;
  rank = none;
}

abbrev model : Dict Tensor
model = ("a", record { bits = 32; value = 7 }) ∷ ("b", record { bits = 64; value = 9 }) ∷ []

abbrev world : World Tensor ℕ ℕ
world = record {
  params = model;
  optimizer = 3;
  scheduler = some 4;
  files = λ q. none;
  has_prev = false;
  tasks = [];
}

-- the compression wrapper around the base manager, in a thread, in a decorator
abbrev wrapper : Manager
wrapper = decorator (asynchronous (compression (torch (100 ∷ []))))

halves :
    (x : Tensor)
    → whole_torch.is_float32 x ≡ true
    → whole_torch.is_float16 (whole_torch.half x) ≡ true
halves x h = refl

load-save_example :
    (saved : World Tensor ℕ ℕ) × (save whole_torch wrapper 2 world ≡ ok saved)
    × (load whole_torch wrapper
          (saved_path whole_torch wrapper 2)
          (finish whole_torch saved)
          model
          (some 0)
          none
        ≡ load_state whole_torch
            (state 2 (kept whole_torch wrapper world.params) world)
            model
            (some 0)
            none)
load-save_example =
    load-save whole_torch halves (around (threaded (compressed (100 ∷ [])))) 2 world model (some 0)
      none refl

copies : CopiesInPlace whole_torch
copies = record { own = λ d. refl; like = λ d. refl }

model-IsDistinct : IsDistinct model
unfolding get
model-IsDistinct = (refl, (refl, tt))

abbrev manager : Manager
manager = torch (100 ∷ [])

second_save_example :
    (first second : World Tensor ℕ ℕ) × (save whole_torch (incremental manager) 1 world ≡ ok first)
    × (first.files (saved_path whole_torch manager 1)
        ≡ some (state 1 (stored whole_torch manager world.params) world))
    × (save whole_torch (incremental manager) 2 (record first { params = model }) ≡ ok second)
    × (second.files (saved_path whole_torch manager 2)
        ≡ some (state 2 (stored whole_torch manager (cancelled whole_torch model)) world))
    × (second.params ≡ cancelled whole_torch model)
second_save_example =
    second_save whole_torch copies (base (100 ∷ [])) 1 2 world model refl model-IsDistinct
