-- ===== src/Shader.antt =====
-- gpu/shader: the Maxwell shader decoder and the intermediate representation it produces.
pub mod Ir
pub mod Opcode
pub mod Decoder
pub mod Convert
pub mod Program
pub mod Extract
