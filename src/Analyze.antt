-- ===== src/Analyze.antt =====
-- examples/gateway-accounting/analyze.py: what each observation surface reports about token usage.
pub mod Counts
pub mod Record
pub mod Merge
pub mod Surface
pub mod Rows
pub mod Native
pub mod Lineage
pub mod Telemetry
pub mod Case
pub mod Run
