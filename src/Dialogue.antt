-- ===== src/Dialogue.antt =====
-- The operator's dialogue: dialogue/secdogie_dialogue.
pub mod Bytes
pub mod Frames
pub mod Session
