-- ===== src/Tests/Staging.antt =====
-- A disk on which the assets of src/train/download_assets.py are stored, as dictionaries from paths.
use text.Mathlib.TextEquality.{eq_iff}
use ca_project.Common.{
  String, ℕ, ◌≢◌, ◌≡◌, refl, none, some, [], ◌∷◌, Result, ok, raise, os_error, ◌>>=◌, bind-ok,
  arith,
}
use ca_project.Common.Dict.{Dict, get, put, get-put}
use ca_project.Train.Assets.{
  Library, ModelClass, model_from, auto_model_for_masked_lm, auto_model_for_causal_lm,
  download_assets, build_dataloader, build_model, download_model, download_dataset, join_path,
  ends_in_slash,
}
use ca_project.Train.Assets.Staging.{Keeps, Stores, staged_assets}

pub record Disk : Type 0 where
  pub tokenizers : Dict ℕ
  pub models : Dict ℕ
  pub datasets : Dict ℕ

-- what is stored under a name, or else what the network has, which is stored then
abbrev fetch : Dict ℕ → String → Dict ℕ → Result (ℕ × Dict ℕ)
fetch hub p stored = elim (get p stored) [
  | some x ↦ ok (x, stored)
  | none ↦ elim (get p hub) [ none ↦ raise os_error | some x ↦ ok (x, put p x stored) ]
]

abbrev library : Dict ℕ → Library Disk ℕ ℕ ℕ ℕ
library hub = record {
  makedirs = λ p d. ok d;
  tokenizer_from = λ p d. fetch hub p d.tokenizers >>= λ r. ok (r.0, record d { tokenizers = r.1 });
  masked_lm_from = λ p d. fetch hub p d.models >>= λ r. ok (r.0, record d { models = r.1 });
  causal_lm_from = λ p d. fetch hub p d.models >>= λ r. ok (r.0, record d { models = r.1 });
  save_tokenizer = λ t p d. ok (record d { tokenizers = put p t d.tokenizers });
  save_model = λ m p d. ok (record d { models = put p m d.models });
  load_dataset = λ p d. elim (get p hub) [ none ↦ raise os_error | some x ↦ ok (x, d) ];
  load_from_disk = λ p d. elim (get p d.datasets) [ none ↦ raise os_error | some x ↦ ok x ];
  save_to_disk = λ s p d. ok (record d { datasets = put p s d.datasets });
  batches = λ t s n. ok (t ∷ s ∷ n ∷ []);
}

-- what is on the hub
abbrev hub_names : Dict ℕ
hub_names = ("bert-base-uncased", 7) ∷ ("Qwen/Qwen2.5-1.5B", 8) ∷ ("wikitext", 9) ∷ []

abbrev pub online : Library Disk ℕ ℕ ℕ ℕ
online = library hub_names

abbrev offline : Library Disk ℕ ℕ ℕ ℕ
offline = library []

put_apart : (p q : String) (x : ℕ) (l : Dict ℕ) → q ≢ p → get q l ≡ get q (put p x l)
put_apart p q x l other = ground (arith, get-put p q x l, eq_iff p q)

fetch_apart :
    (hub : Dict ℕ) (p q : String) (l l' : Dict ℕ) (x : ℕ)
    → q ≢ p
    → fetch hub p l ≡ ok (x, l')
    → get q l ≡ get q l'
fetch_apart hub p q l l' x other h = ground (arith, put_apart p q x l other, h)

-- What is found under a name decides what loads.
same-Keeps :
    (q : String) (d d' : Disk)
    → get q d.tokenizers ≡ get q d'.tokenizers
    → get q d.models ≡ get q d'.models
    → Keeps offline q d d'
unfolding get
same-Keeps q d d' e f = (λ t h. ground (arith, e, h), λ r h. ground (arith, f, h))

model_fetched :
    (p q : String) (d d' : Disk) (m : ℕ)
    → q ≢ p
    → online.masked_lm_from p d ≡ ok (m, d')
    → Keeps offline q d d'
model_fetched p q d d' m other h =
    let ((x, l'), fetched, e) = bind-ok (fetch hub_names p d.models) _ h in
    same-Keeps q d d' (ground (arith, e))
      (ground (arith, fetch_apart hub_names p q d.models l' x other fetched, e))

any_model :
    (c : ModelClass) (m : ℕ) (p q : String) (d d' : Disk)
    → q ≢ p
    → model_from online c p d ≡ ok (m, d')
    → Keeps offline q d d'
any_model auto_model_for_masked_lm m p q d d' other h = model_fetched p q d d' m other h
any_model auto_model_for_causal_lm m p q d d' other h = model_fetched p q d d' m other h

online-Stores : Stores online offline
unfolding get
online-Stores = record {
  tokenizer_stored = λ t p d d' h. ground (arith, get-put p p t d.tokenizers, eq_iff p p, h);
  dataset_stored = λ s p d d' h. ground (arith, get-put p p s d.datasets, eq_iff p p, h);
  tokenizer_elsewhere = λ t p q d d' other h.
      same-Keeps q d d' (ground (arith, put_apart p q t d.tokenizers other, h)) (ground (arith, h));
  model_elsewhere = λ m p q d d' other h.
      same-Keeps q d d' (ground (arith, h)) (ground (arith, put_apart p q m d.models other, h));
  model_beside = λ m t p d d' h found. ground (arith, h, found);
  dataset_elsewhere = λ s p q d d' h. same-Keeps q d d' (ground (arith, h)) (ground (arith, h));
  folders_made = λ p q d d' other h. same-Keeps q d d' (ground (arith, h)) (ground (arith, h));
  tokenizer_cached = λ t p q d d' other h.
      let ((x, l'), fetched, e) = bind-ok (fetch hub_names p d.tokenizers) _ h in
      same-Keeps q d d'
        (ground (arith, fetch_apart hub_names p q d.tokenizers l' x other fetched, e))
        (ground (arith, e));
  model_cached = any_model;
  dataset_cached = λ s p q d d' other h. same-Keeps q d d' (ground (arith, h)) (ground (arith, h));
}

abbrev pub empty_disk : Disk
empty_disk = record { tokenizers = []; models = []; datasets = [] }

-- what is stored by name, and what is stored under /tmp
abbrev both : Dict ℕ
both =
    ("bert-base-uncased", 7)
    ∷ ("/tmp/models/bert-base-uncased", 7)
    ∷ ("Qwen/Qwen2.5-1.5B", 8)
    ∷ ("/tmp/models/qwen-1.5B", 8)
    ∷ []

abbrev staged : Disk
staged = record { tokenizers = both; models = both; datasets = ("/tmp/datasets/wikitext", 9) ∷ [] }

downloads : download_assets online "/tmp" empty_disk ≡ ok staged
unfolding download_assets download_model download_dataset join_path ends_in_slash get put
downloads = refl

no_model_before : offline.masked_lm_from "/tmp/bert-base-uncased" empty_disk ≡ raise os_error
unfolding get
no_model_before = refl

staged_assets_example :
    (t : ℕ) × (s : ℕ) × (d1 : Disk) × (d2 : Disk) × (d3 : Disk) × (d4 : Disk)
    × (online.tokenizer_from "bert-base-uncased" d1 ≡ ok (t, d2))
    × (online.load_dataset "wikitext" d3 ≡ ok (s, d4))
    × (build_dataloader offline 8 "bert-base-uncased" "wikitext" staged
        ≡ (offline.batches t s 8 >>= λ bs. ok (bs, staged)))
    × (build_model offline "bert-base-uncased" staged
        ≡ offline.masked_lm_from "bert-base-uncased" staged)
staged_assets_example =
    staged_assets online offline online-Stores empty_disk staged 8 os_error downloads
      no_model_before

-- The model loads from the cache, and not at all without it.
cached_model : build_model offline "bert-base-uncased" staged ≡ ok (7, staged)
unfolding build_model get
cached_model = refl

no_model :
    build_model offline "bert-base-uncased"
      (record staged { models = ("/tmp/models/bert-base-uncased", 7) ∷ [] })
    ≡ raise os_error
unfolding build_model get
no_model = refl
