-- ===== src/Host.antt =====
-- The host's decoder of src/patch_host_backend.c.
pub mod Nvm
pub mod Run
pub mod Canary
pub mod Device
pub mod Peek
pub mod Safety
