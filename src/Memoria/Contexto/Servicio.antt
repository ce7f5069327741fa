-- ===== src/Memoria/Contexto/Servicio.antt =====
-- `hilo_instrucciones_cpu` of memoria/src/manejar_cpu.c on the bytes of its connection: how it reads a
-- message of the CPU, and the bytes of its answer.
pub mod Lectura
pub mod Respuestas
use so_tp_2c.Prelude.{
  ℕ, Bool, true, false, length, Option, none, some, List, [], ◌==◌, if◌then◌else◌,
}
use so_tp_2c.Prelude.Resultado.{Resultado, ok, ◌>>=◌}
use so_tp_2c.Commons.{ListaApi, DictApi}
use so_tp_2c.Comunes.Buffer.{
  Buffer, buffer_create, buffer_read_int, buffer_read_uint32, buffer_add_string,
}
use so_tp_2c.Comunes.Red.{enviar_buffer, recibir_paquete}
use so_tp_2c.Cpu.Conexion.{
  memoria_cpu_obtener_contexto, memoria_cpu_obtener_instruccion, memoria_cpu_read_mem,
  memoria_cpu_write_mem,
}
use so_tp_2c.Cpu.Servidor.{memoria_cpu_actualizar_contexto}
use so_tp_2c.Memoria.Pseudocodigo.{Archivos}
use so_tp_2c.Memoria.Particiones.{Particion}
use so_tp_2c.Memoria.Procesos.{Hilo, Proceso, Estado}
use so_tp_2c.Memoria.Peticiones.{enviar_estado}
use so_tp_2c.Memoria.Contexto.{
  ContextoCpu, PeticionCpu, obtener_contexto_cpu, actualizar_contexto_cpu, obtener_instruccion,
  write_mem, read_mem, desconocida, RespuestaCpu, envia_contexto, envia_estado, envia_instruccion,
  atender_cpu,
}
use so_tp_2c.Memoria.Contexto.Mensajes.{buffer_read_contexto, enviar_contexto}

-- the fields that each case of the switch reads
unfoldable pub leer_peticion_cpu : ℕ → Buffer → Resultado PeticionCpu
unfolding buffer_read_uint32 buffer_read_contexto
leer_peticion_cpu op b =
    if op == memoria_cpu_obtener_contexto
    then (do
      (pid, b1) ← buffer_read_int b
      (tid, _) ← buffer_read_int b1
      ok (obtener_contexto_cpu pid tid))
    else if op == memoria_cpu_actualizar_contexto
    then (do
      (pid, b1) ← buffer_read_int b
      (tid, b2) ← buffer_read_int b1
      (contexto, _) ← buffer_read_contexto b2
      ok (actualizar_contexto_cpu pid tid contexto))
    else if op == memoria_cpu_obtener_instruccion
    then (do
      (pid, b1) ← buffer_read_int b
      (tid, b2) ← buffer_read_int b1
      (pc, _) ← buffer_read_int b2
      ok (obtener_instruccion pid tid pc))
    else if op == memoria_cpu_write_mem
    then ok write_mem
    else if op == memoria_cpu_read_mem
    then ok read_mem
    else ok desconocida

-- the bytes of an answer; without one nothing is sent
unfoldable pub bytes_respuesta : (ℕ → List ℕ) → Option RespuestaCpu → Resultado (List ℕ)
unfolding enviar_contexto enviar_estado
bytes_respuesta malloc none = ok []
bytes_respuesta malloc (some (envia_contexto c)) = enviar_contexto (malloc 56) c
bytes_respuesta malloc (some (envia_estado estado)) =
    enviar_estado (malloc 4) (if estado then 1 else 0) memoria_cpu_actualizar_contexto
bytes_respuesta malloc (some (envia_instruccion bytes)) = ok bytes

module _ (H : DictApi Hilo) (P : DictApi (Proceso H.Dict)) (L : ListaApi Particion)
    (I : ListaApi (List ℕ)) (archivos : Archivos) (strdup : ℕ → List ℕ) (malloc : ℕ → List ℕ) where
  -- One round: what is sent, the memory after it, and the bytes still to be received. `inicial` is the
  -- offset of the buffer, which recibir_paquete does not set.
  unfoldable pub atender_paquete_cpu :
      ℕ → Estado P.Dict → List ℕ → Resultado (List ℕ × (Estado P.Dict × List ℕ))
  unfolding recibir_paquete leer_peticion_cpu atender_cpu bytes_respuesta
  atender_paquete_cpu inicial m entrada = do
    (p, resto) ← recibir_paquete malloc inicial entrada
    peticion ← leer_peticion_cpu p.op_code p.buffer
    (respuesta, m') ← atender_cpu H P L I archivos strdup malloc m peticion
    enviado ← bytes_respuesta malloc respuesta
    ok (enviado, (m', resto))
