-- ===== src/Desktop.antt =====
-- internal/desktop: the desktop service.
pub mod Fifo
pub mod Cache
pub mod Operations
pub mod Rewrite
mod Samples
