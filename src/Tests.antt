-- ===== src/Tests.antt =====
-- Tests of the definitions on concrete inputs, and the theorems at inputs that meet their
-- hypotheses.
mod Messages
mod Samples
mod Parsing
mod Engines
mod Walking
mod Policies
mod Caching
mod Guarding
mod Charts
mod Counting
mod Logging
mod Building
