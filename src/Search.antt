-- ===== src/Search.antt =====
-- internal/app/search.go: the commit search.
pub mod Expression
pub mod Options
pub mod Changes
pub mod Commits
pub mod Patterns
pub mod Hits
pub mod Matching
pub mod Run
mod Samples
