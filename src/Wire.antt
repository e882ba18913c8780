-- ===== src/Wire.antt =====
-- The byte-level wire helpers that the encoder and the decoder share.
pub mod Zigzag
pub mod Uleb
