-- ===== src/Tests.antt =====
-- Runs of the definitions on inputs that can be followed in the source, and each result at an input.
mod Search
mod Stored
mod Templates
mod Pattern
mod Results
mod Matches
