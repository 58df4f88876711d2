-- ===== src/Strategy.antt =====
-- The strategy builder: web/components/StrategyBuilder.tsx.
pub mod Params
pub mod Tree
pub mod Edit
pub mod Meaning
pub mod Wire
pub mod Builder
pub mod Submit
pub mod Prefill
pub mod Reads
mod PageTests
mod Tests
