-- ===== src/Errors.antt =====
-- errors.go and the error of session_recipe.go: the errors that callers see, as trees.
pub mod Tree
pub mod Text
mod Examples
