-- ===== src/Memoria/Contexto/Servicio/Respuestas.antt =====
-- What a round of `hilo_instrucciones_cpu` of memoria/src/manejar_cpu.c can send and change.
use so_tp_2c.Prelude.{ℕ, ◌≡◌, arith}
use so_tp_2c.Prelude.Resultado.{ok}
use so_tp_2c.Comunes.Buffer.{Buffer}
use so_tp_2c.Memoria.Contexto.{
  ContextoCpu, PeticionCpu, obtener_contexto_cpu, actualizar_contexto_cpu, obtener_instruccion,
  write_mem, read_mem, desconocida,
}
use so_tp_2c.Memoria.Contexto.Mensajes.{buffer_read_contexto}

-- The requests that can be read with an operation.
unfoldable Leida : ℕ → PeticionCpu → Type 0
Leida op (obtener_contexto_cpu pid tid) = op ≡ 0
Leida op (actualizar_contexto_cpu pid tid c) = ⊥
Leida op (obtener_instruccion pid tid pc) = Unit
Leida op write_mem = Unit
Leida op read_mem = Unit
Leida op desconocida = Unit

buffer_read_contexto_falla :
    (b b' : Buffer) (c : ContextoCpu) → ¬ (buffer_read_contexto b ≡ ok (c, b'))
unfolding buffer_read_contexto
buffer_read_contexto_falla b b' c h = ground (arith, h)
