-- ===== src/Apply.antt =====
-- The decoder that applies a patch in place, src/patch_apply.h.
pub mod Pages
pub mod Content
pub mod Relocs
pub mod Copy
pub mod Step
pub mod Run
pub mod Sticky
pub mod Rounds
pub mod Frontier
pub mod Safety
