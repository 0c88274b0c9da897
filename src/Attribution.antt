-- ===== src/Attribution.antt =====
-- packages/attribution: the holdout and what it says of the recovered money.
pub mod Rng
pub mod Holdout
pub mod Estimator
