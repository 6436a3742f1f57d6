-- ===== src/Spec.antt =====
-- services/llm/spec_logic.py: from a raw spec to a normalised one, and to the clarifier's decision.
pub mod Terms
pub mod Paths
pub mod Policy
pub mod History
pub mod Question
pub mod Evaluate
pub mod Decision
pub mod Tests
pub mod Orders
