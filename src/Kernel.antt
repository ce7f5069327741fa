-- ===== src/Kernel.antt =====
-- The kernel: kernel/src.
pub mod Colas
pub mod Estado
pub mod Pedidos
pub mod Hilos
pub mod Procesos
pub mod Interpretar
pub mod Planificador
pub mod Pasos
