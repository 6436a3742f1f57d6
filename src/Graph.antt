-- ===== src/Graph.antt =====
-- services/llm/graph.py: the workflow of the pipeline.
pub mod State
pub mod Schema
pub mod Texts
pub mod Nodes
pub mod Run
