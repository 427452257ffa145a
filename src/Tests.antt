-- ===== src/Tests.antt =====
-- The theorems applied at concrete inputs, and runs of the programs that can be followed in the source.
mod Live
mod Study
mod Provenance
mod Lineage
mod Request
mod Relay
mod Frames
mod Reserve
mod Trial
mod Openai
mod Windows
mod Telemetry
mod Case
mod Run
mod Verify
