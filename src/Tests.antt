-- ===== src/Tests.antt =====
-- Runs of the model on inputs that the repository's tests and comments name, and the theorems at
-- concrete inputs.
mod Keyspace
mod Tries
mod Queue
mod Provide
mod QueryPeerset
mod Query
mod Lookup
mod Keystore
mod Buffered
mod Timeseries
mod RtDiversityFilter
mod Connectivity
mod Responses
mod Provider
