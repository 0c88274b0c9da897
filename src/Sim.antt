-- ===== src/Sim.antt =====
-- packages/sim: what the simulated world does on its own, and the replay of the logs of a batch.
pub mod Replay
pub mod World
