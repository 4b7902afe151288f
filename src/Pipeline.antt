-- ===== src/Pipeline.antt =====
-- The five stages of src/pipeline/ and the forwarding unit.
pub mod State
pub mod Forward
pub mod Execute
pub mod Decode
pub mod Stages
pub mod Decoded
pub mod Hazards
pub mod Resolve
pub mod Isa
pub mod Tests
