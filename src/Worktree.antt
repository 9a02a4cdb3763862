-- ===== src/Worktree.antt =====
-- internal/app/worktree.go: the worktree service.
pub mod Listing
pub mod Mutation
pub mod Sparse
mod Samples
