-- ===== src/Sample.antt =====
-- Small instances of what the model takes as parameters. They show that the hypotheses on the
-- crates and the system can hold, and the tests of the other modules run on them.
pub mod Tasks
pub mod Chain
