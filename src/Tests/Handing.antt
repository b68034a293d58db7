-- ===== src/Tests/Handing.antt =====
-- Concrete runs for src/torch_ext/checkpoint.py.
use ca_project.Common.{ℕ, true, false, some, [], ok, raise, runtime_error, ◌≡◌, ◌≢◌, refl, sym, ◌⊎◌}
use ca_project.Common.Int.{pos}
use ca_project.Common.Dict.{get, put, pop}
use ca_project.TorchExt.Paths.{
  Location, to_text, tagged, split_last, derive_alt_checkpoint_path, tmp_target,
}
use ca_project.TorchExt.Checkpoint.{
  whole, World, Calls, target_pfs_path, fallback_save, save_handler, save,
}
use ca_project.TorchExt.Checkpoint.Copying.{IsAtomicAt, tmp-≢, fallback_save-IsAtomicAt}
use ca_project.TorchExt.Checkpoint.Alternation.{save_ends, copy_survives}

abbrev path : Location
path = record { folder = "/pfs/"; name = "checkpoint.pt" }

abbrev world : World ℕ ℕ
world = record {
  checkpoint = record {
    checkpoint_pfs_path = path;
    checkpoint_pfs_path_alt = derive_alt_checkpoint_path path;
    use_alt_pfs_path = false;
    total_epochs = pos 5;
    epoch = 0;
  };
  local_files = [];
  pfs_files = [];
  requests = [];
}

-- a `save` for which the migrater is not there, and all else works
abbrev alone : Calls ℕ
alone = record {
  local_mkdir = true;
  torch_save = true;
  now = 1;
  rpc = raise runtime_error;
  pfs_mkdir = true;
  hex = "4f";
  copy2 = true;
  replace = true;
  unlink = true;
}

abbrev rejected : Calls ℕ
rejected = record alone { rpc = ok false }

derives_alt : to_text (derive_alt_checkpoint_path path) ≡ "/pfs/checkpoint_alt.pt"
unfolding tagged split_last
derives_alt = refl

fallback_save-IsAtomicAt_example :
    IsAtomicAt {A = ℕ} "/pfs/checkpoint.pt" path
      (some (whole 7))
      []
      (fallback_save alone (some (whole 7)) path [])
fallback_save-IsAtomicAt_example =
    fallback_save-IsAtomicAt alone (some (whole 7)) path [] "/pfs/checkpoint.pt"
      (λ e. tmp-≢ "4f" path (sym e))

save_ends_example :
    let (result, after) = save alone 7 "/tmp/c.pt" world in
    ((result ≡ ok tt)
      × (after.checkpoint.epoch ≡ 1)
      × (to_text (target_pfs_path after.checkpoint) ≢ to_text path))
    ⊎ ((result ≢ ok tt) × (after.checkpoint ≡ world.checkpoint))
save_ends_example = save_ends alone 7 "/tmp/c.pt" world refl

saves : (save alone 7 "/tmp/c.pt" world).0 ≡ ok tt
unfolding save save_handler fallback_save get put pop tmp_target
saves = refl

copy_survives_example :
    get (to_text path) (save rejected 8 "/tmp/d.pt" (save alone 7 "/tmp/c.pt" world).1).1.pfs_files
    ≡ some (whole 7)
copy_survives_example =
    copy_survives alone rejected 7 8 "/tmp/c.pt" "/tmp/d.pt" world runtime_error refl refl saves
