-- ===== src/Tests.antt =====
-- Runs of the definitions on concrete inputs, and each theorem at an input that meets its
-- hypotheses.
mod Clocks
mod Registers
mod Memory
mod Tables
mod Logs
mod Caches
mod Rounds
mod Files
mod Databases
mod Nodes
mod Sorting
mod Restarts
