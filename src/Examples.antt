-- ===== src/Examples.antt =====
-- Runs of the models at concrete inputs, and the theorems applied there.
mod Gpu
mod Kernel
mod Memory
mod Nv
mod Ipc
mod Shader
mod Sm
