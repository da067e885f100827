-- ===== src/Tests.antt =====
-- Runs at concrete inputs, and each theorem at an input that meets its hypotheses.
mod Lambdas
mod Servers
mod Interleavings
mod Breakers
mod Digests
mod Telemetry
mod Alarms
mod Journeys
mod Requests
mod Samples
mod Decisions
mod Stages
mod Pipelines
mod Deliveries
mod Publishing
mod Tokens
mod Edges
mod Vendors
mod Workers
mod Settings
