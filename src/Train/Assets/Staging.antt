-- ===== src/Train/Assets/Staging.antt =====
-- What a node without a network finds of the assets that src/train/download_assets.py has stored
-- under /tmp.
use text.Mathlib.Text.{◌==◌ as str_eq}
use text.Mathlib.TextEquality.{eq_iff}
use ca_project.Common.{ℕ, false, true, String, ◌≡◌, ◌≢◌, refl, Exception, ok, raise, ◌>>=◌, bind-ok}
use ca_project.Train.Assets.{
  Library, join_path, ends_in_slash, download_model, download_dataset, download_assets, build_model,
  find_tokenizer, find_dataset, build_dataloader, auto_model_for_masked_lm,
  auto_model_for_causal_lm, ModelClass, model_from,
}

abbrev bert_path : String
bert_path = "/tmp/models/bert-base-uncased"

abbrev qwen_path : String
qwen_path = "/tmp/models/qwen-1.5B"

abbrev wikitext_path : String
wikitext_path = "/tmp/datasets/wikitext"

distinct : (p q : String) → str_eq p q ≡ false → p ≢ q
distinct p q h e = let same : str_eq p q ≡ true = (eq_iff p q).1 e in cc

-- What a library loads from one disk at `q`, it loads from the other: a tokenizer that loads there
-- and leaves the disk alone, and a model that is not there.
abbrev pub Keeps : {D T M S B : Type 0} → Library D T M S B → String → D → D → Type 0
Keeps {D} {T} {M} {S} {B} lib q d d' =
    ((t : T) → lib.tokenizer_from q d ≡ ok (t, d) → lib.tokenizer_from q d' ≡ ok (t, d'))
    × ((e : Exception) → lib.masked_lm_from q d ≡ raise e → lib.masked_lm_from q d' ≡ raise e)

-- How what one library stores is found by another on the same disk: what has been stored in a folder
-- loads from there and leaves the disk alone, and a call that stores, makes or caches something
-- under another name does not change what loads.
pub record Stores {D T M S B : Type 0} (at_store at_load : Library D T M S B) : Type 0 where
  pub tokenizer_stored :
      (t : T) (p : String) (d d' : D)
      → at_store.save_tokenizer t p d ≡ ok d'
      → at_load.tokenizer_from p d' ≡ ok (t, d')
  pub dataset_stored :
      (s : S) (p : String) (d d' : D)
      → at_store.save_to_disk s p d ≡ ok d'
      → at_load.load_from_disk p d' ≡ ok s
  pub tokenizer_elsewhere :
      (t : T) (p q : String) (d d' : D)
      → q ≢ p
      → at_store.save_tokenizer t p d ≡ ok d'
      → Keeps at_load q d d'
  pub model_elsewhere :
      (m : M) (p q : String) (d d' : D)
      → q ≢ p
      → at_store.save_model m p d ≡ ok d'
      → Keeps at_load q d d'
  -- a model is stored beside a tokenizer
  pub model_beside :
      (m : M) (t : T) (p : String) (d d' : D)
      → at_store.save_model m p d ≡ ok d'
      → at_load.tokenizer_from p d ≡ ok (t, d)
      → at_load.tokenizer_from p d' ≡ ok (t, d')
  pub dataset_elsewhere :
      (s : S) (p q : String) (d d' : D) → at_store.save_to_disk s p d ≡ ok d' → Keeps at_load q d d'
  pub folders_made :
      (p q : String) (d d' : D) → q ≢ p → at_store.makedirs p d ≡ ok d' → Keeps at_load q d d'
  pub tokenizer_cached :
      (t : T) (p q : String) (d d' : D)
      → q ≢ p
      → at_store.tokenizer_from p d ≡ ok (t, d')
      → Keeps at_load q d d'
  pub model_cached :
      (c : ModelClass) (m : M) (p q : String) (d d' : D)
      → q ≢ p
      → model_from at_store c p d ≡ ok (m, d')
      → Keeps at_load q d d'
  pub dataset_cached :
      (s : S) (p q : String) (d d' : D)
      → q ≢ p
      → at_store.load_dataset p d ≡ ok (s, d')
      → Keeps at_load q d d'

module _ {D T M S B : Type 0} (online offline : Library D T M S B) (h : Stores online offline) where
  Keeps-trans :
      (q : String) (d e f : D) → Keeps offline q d e → Keeps offline q e f → Keeps offline q d f
  Keeps-trans q d e f x y = (λ t k. y.0 t (x.0 t k), λ r k. y.1 r (x.1 r k))

  -- A model that is downloaded changes nothing elsewhere, and its tokenizer loads.
  download_model_lem :
      (dir repo : String) (c : ModelClass) (folder : String) (d d' : D)
      → download_model online dir repo c folder d ≡ ok d'
      → ((q : String)
          → q ≢ join_path (join_path dir "models") folder
          → q ≢ repo
          → Keeps offline q d d')
        × ((t : T) × (d1 : D) × (d2 : D) × (online.tokenizer_from repo d1 ≡ ok (t, d2))
            × (offline.tokenizer_from (join_path (join_path dir "models") folder) d' ≡ ok (t, d')))
  unfolding download_model
  download_model_lem dir repo c folder d d' e =
      let dest = join_path (join_path dir "models") folder in
      let (d1, made, e1) = bind-ok (online.makedirs dest d) _ e in
      let ((t, d2), loaded, e2) = bind-ok (online.tokenizer_from repo d1) _ e1 in
      let ((m, d3), found, e3) = bind-ok (model_from online c repo d2) _ e2 in
      let (d4, stored, e4) = bind-ok (online.save_tokenizer t dest d3) _ e3 in
      (
        (λ q other unnamed. Keeps-trans q d d1 d' (h.folders_made dest q d d1 other made) (
            Keeps-trans q d1 d2 d' (h.tokenizer_cached t repo q d1 d2 unnamed loaded) (
              Keeps-trans q d2 d3 d' (h.model_cached c m repo q d2 d3 unnamed found) (
                Keeps-trans q d3 d4 d' (h.tokenizer_elsewhere t dest q d3 d4 other stored)
                  (h.model_elsewhere m dest q d4 d' other e4))))),
        (
          t,
          d1,
          d2,
          loaded,
          h.model_beside m t dest d4 d' e4 (h.tokenizer_stored t dest d3 d4 stored),
        ),
      )

  download_dataset_lem :
      (dir : String) (d d' : D)
      → download_dataset online dir d ≡ ok d'
      → ((q : String)
          → q ≢ join_path (join_path dir "datasets") "wikitext"
          → q ≢ "wikitext"
          → Keeps offline q d d')
        × ((s : S) × (d1 : D) × (d2 : D) × (online.load_dataset "wikitext" d1 ≡ ok (s, d2))
            × (offline.load_from_disk (join_path (join_path dir "datasets") "wikitext") d' ≡ ok s))
  unfolding download_dataset
  download_dataset_lem dir d d' e =
      let dest = join_path (join_path dir "datasets") "wikitext" in
      let (d1, made, e1) = bind-ok (online.makedirs dest d) _ e in
      let ((s, d2), loaded, e2) = bind-ok (online.load_dataset "wikitext" d1) _ e1 in
      (
        (λ q other unnamed. Keeps-trans q d d1 d' (h.folders_made dest q d d1 other made) (
            Keeps-trans q d1 d2 d' (h.dataset_cached s "wikitext" q d1 d2 unnamed loaded)
              (h.dataset_elsewhere s dest q d2 d' e2))),
        (s, d1, d2, loaded, h.dataset_stored s dest d2 d' e2),
      )

  loader_finds :
      (d : D) (t : T) (s : S) (batch_size : ℕ)
      → offline.tokenizer_from bert_path d ≡ ok (t, d)
      → offline.load_from_disk wikitext_path d ≡ ok s
      → build_dataloader offline batch_size "bert-base-uncased" "wikitext" d
        ≡ (offline.batches t s batch_size >>= λ bs. ok (bs, d))
  unfolding build_dataloader find_tokenizer find_dataset
  loader_finds d t s batch_size found found' =
      rw (build_dataloader, find_tokenizer, found, find_dataset, found') refl

  -- What a node without a network finds when the assets have been downloaded to /tmp: the data
  -- loader takes the tokenizer and the dataset that were downloaded and leaves the disk alone, but
  -- the model that was downloaded is not looked for where it is. If there was no model at
  -- /tmp/bert-base-uncased before, `build_model` does what a load by the bare name does, from a
  -- cache or the network, since it looks at /tmp/bert-base-uncased and not in /tmp/models. The
  -- download succeeds; what it stores or caches under one name does not change what loads under
  -- another.
  pub staged_assets :
      (d d' : D) (batch_size : ℕ) (e : Exception)
      → download_assets online "/tmp" d ≡ ok d'
      → offline.masked_lm_from "/tmp/bert-base-uncased" d ≡ raise e
      → (t : T) × (s : S) × (d1 : D) × (d2 : D) × (d3 : D) × (d4 : D) × (online.tokenizer_from
            "bert-base-uncased" d1
          ≡ ok (t, d2))
        × (online.load_dataset "wikitext" d3 ≡ ok (s, d4))
        × (build_dataloader offline batch_size "bert-base-uncased" "wikitext" d'
            ≡ (offline.batches t s batch_size >>= λ bs. ok (bs, d')))
        × (build_model offline "bert-base-uncased" d'
            ≡ offline.masked_lm_from "bert-base-uncased" d')
  unfolding download_assets join_path ends_in_slash build_model
  staged_assets d d' batch_size e done missing =
      let (a, bert_done, e1) =
        bind-ok
          (download_model online "/tmp" "bert-base-uncased" auto_model_for_masked_lm
            "bert-base-uncased" d)
          _ done in
      let (b, qwen_done, e2) =
        bind-ok
          (download_model online "/tmp" "Qwen/Qwen2.5-1.5B" auto_model_for_causal_lm "qwen-1.5B" a)
          _ e1 in
      let (bert, (t, d1, d2, t_loaded, t_stored)) =
        download_model_lem "/tmp" "bert-base-uncased" auto_model_for_masked_lm "bert-base-uncased" d
          a bert_done in
      let (qwen, other) =
        download_model_lem "/tmp" "Qwen/Qwen2.5-1.5B" auto_model_for_causal_lm "qwen-1.5B" a b
          qwen_done in
      let (wikitext, (s, d3, d4, s_loaded, s_stored)) = download_dataset_lem "/tmp" b d' e2 in
      let later : (q : String)
          → q ≢ qwen_path
          → q ≢ "Qwen/Qwen2.5-1.5B"
          → q ≢ wikitext_path
          → q ≢ "wikitext"
          → Keeps offline q a d' =
        λ q x y z w. Keeps-trans q a b d' (qwen q x y) (wikitext q z w) in
      let bert_kept =
        later bert_path (distinct _ _ refl) (distinct _ _ refl) (distinct _ _ refl)
          (distinct _ _ refl) in
      let model_kept =
        Keeps-trans "/tmp/bert-base-uncased" d a d'
          (bert "/tmp/bert-base-uncased" (distinct _ _ refl) (distinct _ _ refl))
          (later "/tmp/bert-base-uncased" (distinct _ _ refl) (distinct _ _ refl)
            (distinct _ _ refl) (distinct _ _ refl)) in
      (
        t,
        s,
        d1,
        d2,
        d3,
        d4,
        t_loaded,
        s_loaded,
        loader_finds d' t s batch_size (bert_kept.0 t t_stored) s_stored,
        rw (build_model, model_kept.1 e missing) refl,
      )
