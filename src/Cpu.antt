-- ===== src/Cpu.antt =====
-- The CPU module, cpu/src: registers, instruction parser, execution, cycle, address
-- translation, the requests to the memory module, and the server for the kernel.
pub mod Registros
pub mod Instruccion
pub mod Mmu
pub mod Ejecucion
pub mod Ciclo
pub mod Conexion
pub mod Servidor
