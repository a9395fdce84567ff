-- ===== src/Models.antt =====
-- db/models.py and constants.py: the rows of the database, one module for each group of tables.
pub mod Json
pub mod Time
pub mod Auth
pub mod Agents
pub mod Jobs
pub mod Memory
pub mod Work
pub mod Evals
pub mod Values
pub mod Events
