-- ===== src/Tests.antt =====
-- Runs of the definitions on concrete inputs, and the theorems applied to such inputs.
mod Words
mod Wire
mod Algebra
mod Shares
mod Prio3
mod Rounds
mod Types
mod Poplar1
mod Reports
mod Counts
