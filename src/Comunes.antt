-- ===== src/Comunes.antt =====
-- What the modules share: the C library's text functions that they call, and utils/src.
pub mod Texto
pub mod Bytes
pub mod Buffer
pub mod Serializar
pub mod Red
