-- ===== src/Delta.antt =====
-- The streams of relocation deltas: the escape values, the move-to-front cache of recent deltas, and
-- the coding of one delta, from src/rc_models.h, src/enc_emit.c and src/patch_apply.h.
pub mod Escape
pub mod Cache
pub mod Stream
