-- ===== src/Train.antt =====
-- src/train/: the training that saves the checkpoints.
pub mod Trainer
pub mod Assets
pub mod Start
pub mod Main
