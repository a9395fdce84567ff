-- ===== src/Evals.antt =====
-- runtime/evals.py and the handlers of api/v1/evals.py. Evals/Checks grades an output, Evals/Validate vets checks, Evals/Run
-- runs a suite of Evals/Cases.
pub mod Checks
pub mod Validate
pub mod Grading
pub mod Cases
pub mod Run
pub mod Handlers
pub mod Outcomes
pub mod Start
pub mod Score
mod Tests
