-- ===== src/Kernel/Pedidos/Paquete.antt =====
-- What `manejar_peticion` of memoria/src/manejar_kernel.c gets of the message of crearProcesoMemoria of
-- kernel/src/main.c, through recibir_paquete.
use so_tp_2c.Prelude.{ℕ, some, List, ◌∷◌, ◌++◌, length, drop}
use so_tp_2c.Comunes.Buffer.{Buffer}

-- The buffer that the memory makes of a message of 16 bytes.
abbrev recibido : (ℕ → List ℕ) → List ℕ → Buffer
recibido malloc s = record {
  size = some 268435456;
  offset = 0;
  stream = (0 ∷ 0 ∷ 0 ∷ s) ++ drop (length (0 ∷ 0 ∷ 0 ∷ s)) (malloc 268435456);
}
