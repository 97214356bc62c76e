-- ===== src/Processor.antt =====
-- The package processor: from the events of a block to rows, metrics and summaries.
pub mod Coins
pub mod Convert
pub mod Filter
pub mod Correlate
pub mod Aggregate
pub mod Reporter
pub mod Recalculate
pub mod Collector
pub mod Batch
pub mod Pipeline
