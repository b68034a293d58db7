-- ===== src/Tests/Starting.antt =====
-- A concrete run of src/train/train.py, on a node that downloads all assets.
use Prim.Native.String.{◌++◌}
use ca_project.Common.{
  ℕ, zero, suc, String, ◌≡◌, refl, true, false, Option, none, some, [], ◌∷◌, ok, arith,
}
use ca_project.Common.Int.{ℤ, pos}
use ca_project.Common.Dict.{get, put}
use ca_project.TorchExt.Paths.{path_folder, leading_slashes, kept_parts}
use ca_project.TorchExt.Checkpoint.{Calls, append_job_id}
use ca_project.Train.Assets.{build_model, build_dataloader, find_tokenizer, find_dataset}
use ca_project.Train.Start.{Plan, plan}
use ca_project.Train.Trainer.{Training}
use ca_project.Train.Main.{Options, Args, parse_args, pfs_path, Job, main, status}
use ca_project.Train.Main.Saving.{IsHanded, requests_of}
use ca_project.Train.Main.Handover.{main_hands_over}
use ca_project.Tests.Staging.{Disk, online, empty_disk}

-- how `pathlib` writes a folder before a name
one_slash :
    (path_folder "/tmp//pfs/" ≡ "/tmp/pfs/")
    × (path_folder "./ck" ≡ "ck/")
    × (path_folder "." ≡ "")
    × (path_folder "" ≡ "")
    × (path_folder "//a" ≡ "//a/")
    × (path_folder "///" ≡ "/")
unfolding path_folder leading_slashes kept_parts
one_slash = (refl, refl, refl, refl, refl, refl)

-- a step as so many strokes
strokes : ℕ → String
strokes zero = ""
strokes (suc n) = "I" ++ strokes n

abbrev read : String → Option ℤ
read text = get text (("2", pos 2) ∷ ("6", pos 6) ∷ ("0", pos 0) ∷ [])

abbrev given : Options
given = record {
  checkpoint_pfs_dir = some "/pfs";
  checkpoint_local_dir = none;
  profile = false;
  checkpoint_interval = some "2";
  total_steps = some "6";
  warmup_steps = some "0";
}

abbrev args : Args
args = record {
  checkpoint_pfs_dir = "/pfs";
  checkpoint_local_dir = "/tmp/";
  profile = false;
  checkpoint_interval = pos 2;
  total_steps = pos 6;
  warmup_steps = pos 0;
}

parses : parse_args read given ≡ some args
unfolding parse_args get
parses = refl

abbrev numbers : Plan
numbers = record { checkpoint_interval = 2; total_steps = 6; warmup_steps = 0; total_epochs = 3 }

fits : plan (pos 2) (pos 6) (pos 0) ≡ ok numbers
unfolding plan
fits = refl

-- the disk when the model is cached, and when the tokenizer has been stored as well
abbrev after_model : Disk
after_model = record empty_disk { models = ("bert-base-uncased", 7) ∷ [] }

abbrev after_batches : Disk
after_batches = record after_model {
  tokenizers = ("bert-base-uncased", 7) ∷ ("/tmp/models/bert-base-uncased", 7) ∷ [];
}

model_loads : build_model online "bert-base-uncased" empty_disk ≡ ok (7, after_model)
unfolding build_model get put
model_loads = refl

batches_load :
    build_dataloader online 8 "bert-base-uncased" "wikitext" after_model
    ≡ ok (7 ∷ 9 ∷ 8 ∷ [], after_batches)
unfolding build_dataloader find_tokenizer find_dataset get put
batches_load = refl

-- what the calls of the save at a step come to
abbrev calls : ℕ → Calls ℕ
calls n = record {
  local_mkdir = true;
  torch_save = true;
  now = n;
  rpc = ok true;
  pfs_mkdir = true;
  hex = "0";
  copy2 = true;
  replace = true;
  unlink = true;
}

calls-IsHanded : (n : ℕ) → IsHanded (calls n)
calls-IsHanded n = record { local_mkdir = refl; torch_save = refl; answered = true; rpc = refl }

main_hands_over_example :
    (u : Training (Job ℕ ℕ ℕ)) × (main online strokes
        (λ b m. b)
        (λ n m. m)
        calls
        "1"
        args
        empty_disk
      ≡ some (ok u))
    × (status online strokes (λ b m. b) (λ n m. m) calls "1" read given empty_disk ≡ some 0)
    × (u.step ≡ 6)
    × (u.state.world.requests
        ≡ requests_of strokes calls "/tmp/" (append_job_id "1" (pfs_path "/pfs")) 3 2 3)
main_hands_over_example =
    main_hands_over online strokes (λ b m. b) (λ n m. m) calls "1" read given args empty_disk
      after_model after_batches numbers 7 (7 ∷ 9 ∷ 8 ∷ []) parses fits model_loads batches_load
      (omega arith) calls-IsHanded
