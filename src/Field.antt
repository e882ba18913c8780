-- ===== src/Field.antt =====
-- Relocation fields: the shift map that predicts their deltas and the Thumb instructions that hold
-- them (src/rc_models.h).
pub mod ShiftMap
pub mod Thumb
