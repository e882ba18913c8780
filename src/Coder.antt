-- ===== src/Coder.antt =====
-- The binary range coder: the encoder of src/enc_rc.c, the decoder of src/patch_apply.h, and the
-- proof that the one reads back what the other wrote.
pub mod Prob
pub mod Encoder
pub mod Value
pub mod Decoder
pub mod Renorm
pub mod Sync
pub mod Bitlen
pub mod Prefix
pub mod Flush
pub mod Step
pub mod Codec
pub mod RoundTrip
