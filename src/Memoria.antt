-- ===== src/Memoria.antt =====
-- The memory module, memoria/src: its partitions, its processes and threads, its request handlers.
pub mod Particiones
pub mod Pseudocodigo
pub mod Procesos
pub mod Contexto
pub mod Peticiones
