-- ===== src/Lib.antt =====
-- CHORUS migrates the checkpoints of training jobs from node-local storage to a parallel file system
-- (PFS). On each node a migrater copies checkpoints at a rate that an orchestrator sets; the
-- orchestrator divides the bandwidth of the PFS among the nodes by a policy.
--
-- The parts and their files:
-- - src/protocol/cluster.proto, the messages: Protocol.
-- - src/orchestrator/scheduler.py: `ClusterState` is Orchestrator.Cluster, the policies with their
--   `decide` are Orchestrator.Policy. A method of `ClusterState` holds its lock, so it is one step,
--   and what `time.time()` gave is its argument.
-- - src/orchestrator/server.py: `OrchestratorService` is Orchestrator.Service, where the streams of
--   `Monitor` run as interleaved events; `load_priority_map` is Orchestrator.PriorityMap, and the
--   choice of the policy in `__main__` is Orchestrator.Start.
-- - src/migrater/token_bucket.py: `token_bucket_copy` is Migrater.TokenBucket, a loop over rounds, in
--   each of which the clock and the throughput provider return what they like, and the reading or
--   writing of a chunk may fail; its command line is Migrater.Metrics.
-- - src/migrater/progress.py: Migrater.Progress.
-- - src/migrater/server.py: `MigraterService` is Migrater.Service; its threads run as interleaved
--   events, each a section under the lock or one access of a shared flag; its state is
--   Migrater.State.
-- - src/protocol/orchestrator/client.py: Migrater.HeartbeatStream.
-- - src/torch_ext/checkpoint.py and src/protocol/migrater/client.py: the paths, as `pathlib`
--   writes them, are TorchExt.Paths, the class `Checkpoint` with the client that it calls is
--   TorchExt.Checkpoint.
-- - src/train/trainer.py: Train.Trainer, a loop on fuel.
-- - src/train/train.py: the validation is Train.Start; the command line, `main` and the status of the
--   process are Train.Main, where the trainer saves through TorchExt.Checkpoint.
-- - src/train/download_assets.py, model.py and dataset.py: Train.Assets, over a `Library` that stands
--   for transformers, datasets and the disk, where they also cache what they download.
-- - src/utils/size_parser.py: SizeParser, on the codes of an ASCII text.
-- - The line that each heartbeat of the migrater prints is Migrater.Log; the parsers of that log in
--   backup/plot_migrater_metrics.py and backup/plot_migrater_ratio.py are Plots.Metrics and
--   Plots.Ratio, with their patterns as functions that search a text from left to right; what
--   the two make of the numbers is Plots.Drawing.
-- - backup/checkpointing: Checkpointing, the managers as a data type with `save` and `load` by clauses,
--   and PyTorch as a parameter; a `state_dict` of a model stands for its live tensors.
--
-- System has what the copy, the migrater and the orchestrator do together; System.Bandwidth has all
-- copies of a cluster together, and System.Completion the threads of the migrater with their copies.
-- Common has what the parts share: lists, dictionaries, numbers, texts, exceptions. Float has the
-- floats, a parameter with named laws, which whole numbers meet: Float.Laws has those of order, and
-- Float.Rounding what rounding may change, the standard model of IEEE 754 arithmetic for results that
-- neither overflow nor are subnormal. Tests has concrete runs.
--
-- The fuel of `train_epochs` counts runs through the data; as many as steps are enough.
--
-- Times in the token bucket are whole ticks, `hz` to a second, and tokens are counted in 1/hz byte, so
-- that its arithmetic is exact. `copy_loop` takes a list of rounds; how many are enough is a theorem.
--
-- Not modelled: the creation of the gRPC servers and the size of their thread pools, what else is
-- printed, argparse's own parsing, the generated protocol code, the tokenizing and batching that
-- src/train/dataset.py leaves to libraries, the benchmarks and the pictures of the plots.
pub mod Common
pub mod Float
pub mod Protocol
pub mod Orchestrator
pub mod Migrater
pub mod TorchExt
pub mod Train
pub mod System
pub mod SizeParser
pub mod Plots
pub mod Checkpointing
mod Tests
