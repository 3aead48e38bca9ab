-- ===== src/Gpu.antt =====
-- The GPU command path: gpu/engine/GPFifo, gpu/engine/Engine3D and gpu/StateTracker.
pub mod Fifo
pub mod State
pub mod Engine
pub mod Tracker
