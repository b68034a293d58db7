-- ===== src/TorchExt.antt =====
-- src/torch_ext/: what the training code uses to hand checkpoints to the migrater.
pub mod Paths
pub mod Checkpoint
