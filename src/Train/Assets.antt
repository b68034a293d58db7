-- ===== src/Train/Assets.antt =====
-- src/train/download_assets.py, and src/train/model.py and src/train/dataset.py, which load what it
-- has stored. `transformers` and `datasets` with the disk that they work on are a parameter: a
-- `Library`. A file system is a `D`; a call that raises leaves it to the next as it was.
pub mod Staging
use Prim.Native.String.{[], ◌∷◌, ◌++◌}
use Prim.Native.Char.{code}
use ca_project.Common.{
  ℕ, String, Bool, true, false, List, ◌==◌, if◌then◌else◌, Result, ok, raise, ◌>>=◌,
}

-- T is a tokenizer, M a model, S a dataset, B a batch.
pub record Library (D T M S B : Type 0) : Type 0 where
  -- `os.makedirs(path, exist_ok=True)`
  pub makedirs : String → D → Result D
  -- `AutoTokenizer.from_pretrained`, and those of the two classes of models, with the disk that they
  -- leave: what is downloaded is cached
  pub tokenizer_from : String → D → Result (T × D)
  pub masked_lm_from : String → D → Result (M × D)
  pub causal_lm_from : String → D → Result (M × D)
  -- `tokenizer.save_pretrained` and `model.save_pretrained`
  pub save_tokenizer : T → String → D → Result D
  pub save_model : M → String → D → Result D
  -- `load_dataset(name, "wikitext-2-raw-v1")`, `load_from_disk` and `save_to_disk`
  pub load_dataset : String → D → Result (S × D)
  pub load_from_disk : String → D → Result S
  pub save_to_disk : S → String → D → Result D
  -- the batches of a size that the `DataLoader` gives of the "train" part, tokenized
  pub batches : T → S → ℕ → Result (List B)

unfoldable pub ends_in_slash : String → Bool
ends_in_slash [] = false
ends_in_slash (c ∷ []) = code c == 47
ends_in_slash (c ∷ d ∷ cs) = ends_in_slash (d ∷ cs)

-- `os.path.join`, where the second path is relative and not empty
unfoldable pub join_path : String → String → String
join_path [] path = path
join_path (c ∷ cs) path =
    let folder = c ∷ cs in if ends_in_slash folder then folder ++ path else folder ++ ("/" ++ path)

-- the classes of `models_to_download`
pub data ModelClass : Type 0 where
  auto_model_for_masked_lm auto_model_for_causal_lm : ModelClass

-- `try: return …`, `except Exception: return …`
abbrev pub or_else {ℓ} : {V : Type ℓ} → Result V → Result V → Result V
or_else (ok v) otherwise = ok v
or_else (raise e) otherwise = otherwise

module _ {D T M S B : Type 0} (lib : Library D T M S B) where
  abbrev pub model_from : ModelClass → String → D → Result (M × D)
  model_from auto_model_for_masked_lm = lib.masked_lm_from
  model_from auto_model_for_causal_lm = lib.causal_lm_from

  -- one run through the loop over `models_to_download`
  unfoldable pub download_model : String → String → ModelClass → String → D → Result D
  download_model assets_dir repo_id model_class folder_name d = do
    let dest_path = join_path (join_path assets_dir "models") folder_name
    d1 ← lib.makedirs dest_path d
    (tokenizer, d2) ← lib.tokenizer_from repo_id d1
    (model, d3) ← model_from model_class repo_id d2
    d4 ← lib.save_tokenizer tokenizer dest_path d3
    lib.save_model model dest_path d4

  unfoldable pub download_dataset : String → D → Result D
  download_dataset assets_dir d = do
    let dataset_dest = join_path (join_path assets_dir "datasets") "wikitext"
    d1 ← lib.makedirs dataset_dest d
    (dataset, d2) ← lib.load_dataset "wikitext" d1
    lib.save_to_disk dataset dataset_dest d2

  unfoldable pub download_assets : String → D → Result D
  download_assets assets_dir d = do
    d1 ←
        download_model assets_dir "bert-base-uncased" auto_model_for_masked_lm "bert-base-uncased" d
    d2 ← download_model assets_dir "Qwen/Qwen2.5-1.5B" auto_model_for_causal_lm "qwen-1.5B" d1
    download_dataset assets_dir d2

  -- `build_model`, and the disk that it leaves
  unfoldable pub build_model : String → D → Result (M × D)
  build_model model_name d =
      or_else (lib.masked_lm_from ("/tmp/" ++ model_name) d) (lib.masked_lm_from model_name d)

  -- the tokenizer of `build_dataloader`, which stores one that it had to download
  unfoldable pub find_tokenizer : String → D → Result (T × D)
  find_tokenizer model_name d =
      let tokenizer_path = "/tmp/models/" ++ model_name in
      elim (lib.tokenizer_from tokenizer_path d) [
        | ok found ↦ ok found
        | raise e ↦ do
          (tokenizer, d1) ← lib.tokenizer_from model_name d
          d2 ← lib.save_tokenizer tokenizer tokenizer_path d1
          ok (tokenizer, d2)
      ]

  unfoldable pub find_dataset : String → D → Result (S × D)
  find_dataset dataset_name d = elim (lib.load_from_disk ("/tmp/datasets/" ++ dataset_name) d) [
    | ok dataset ↦ ok (dataset, d)
    | raise e ↦ lib.load_dataset dataset_name d
  ]

  -- `build_dataloader`, and the disk that it leaves
  unfoldable pub build_dataloader : ℕ → String → String → D → Result (List B × D)
  build_dataloader batch_size model_name dataset_name d = do
    (tokenizer, d1) ← find_tokenizer model_name d
    (dataset, d2) ← find_dataset dataset_name d1
    bs ← lib.batches tokenizer dataset batch_size
    ok (bs, d2)
