-- ===== src/Recipe.antt =====
-- session_recipe.go: a session opened and set up by a list of statements.
pub mod Replay
mod Contract
mod Examples
