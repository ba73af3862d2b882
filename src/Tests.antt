-- ===== src/Tests.antt =====
-- Concrete scenarios and states, and the theorems applied to them.
mod Data
mod Run
mod Model
mod Search
mod Tables
mod Solver
