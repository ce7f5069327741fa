-- ===== src/Cpu/Conexion.antt =====
-- The requests of the CPU to the memory module: cpu/src/conexion_memoria.c and
-- `fetchInstruccion` of cpu/src/cpu.c. solicitar_instruccion and solicitar_contexto are up to the bytes
-- that they send. `bloque` is what `malloc` returned.
use so_tp_2c.Prelude.{
  ℕ, ◌+◌, ◌≡◌, refl, sym, List, [], ◌++◌, arith, length, some, take, drop, append-nil,
  length-append, take-length_append,
}
use so_tp_2c.Prelude.Resultado.{Resultado, ok, falla, fuera_de_bloque, ◌>>=◌}
use so_tp_2c.Comunes.Bytes.{le32, length-le32}
use so_tp_2c.Comunes.Buffer.{
  Buffer, buffer_create, buffer_add_uint32, buffer_write, buffer_read_uint32, buffer_read_string,
}
use so_tp_2c.Comunes.Serializar.{Tcb}
use so_tp_2c.Comunes.Serializar.Escritura.{buffer_write_lem, drop_todo, length-drop}
use so_tp_2c.Comunes.Red.{enviar_buffer, enviar_operacion, recibir_buffer}

-- MEMORIA_CPU_OBTENER_CONTEXTO and MEMORIA_CPU_OBTENER_INSTRUCCION, by their numbers
abbrev pub memoria_cpu_obtener_contexto : ℕ
memoria_cpu_obtener_contexto = 0

abbrev pub memoria_cpu_obtener_instruccion : ℕ
memoria_cpu_obtener_instruccion = 2

unfoldable pub solicitar_instruccion : List ℕ → ℕ → ℕ → ℕ → Resultado (List ℕ)
unfolding buffer_add_uint32 enviar_operacion
solicitar_instruccion bloque pid tid pc = do
  b1 ← buffer_add_uint32 (buffer_create bloque) pid
  b2 ← buffer_add_uint32 b1 tid
  b3 ← buffer_add_uint32 b2 pc
  enviar_operacion memoria_cpu_obtener_instruccion b3

unfoldable pub solicitar_contexto : List ℕ → Tcb → Resultado (List ℕ)
unfolding buffer_add_uint32 enviar_operacion
solicitar_contexto bloque tcb = do
  b1 ← buffer_add_uint32 (buffer_create bloque) tcb.pid
  b2 ← buffer_add_uint32 b1 tcb.tid
  enviar_operacion memoria_cpu_obtener_contexto b2

-- MEMORIA_CPU_READ_MEM and MEMORIA_CPU_WRITE_MEM
abbrev pub memoria_cpu_read_mem : ℕ
memoria_cpu_read_mem = 3

abbrev pub memoria_cpu_write_mem : ℕ
memoria_cpu_write_mem = 4

-- What is sent, and the buffer that comes back. `apuntado` are the bytes at the address, of which those
-- of a pointer go into the message.
unfoldable pub leer_en_memoria : (ℕ → List ℕ) → List ℕ → List ℕ → Resultado (List ℕ × Buffer)
unfolding buffer_write enviar_operacion recibir_buffer
leer_en_memoria malloc apuntado respuesta = do
  b ← buffer_write (buffer_create (malloc 16)) (take 8 apuntado)
  enviado ← enviar_operacion memoria_cpu_read_mem b
  (r, _) ← recibir_buffer malloc respuesta
  ok (enviado, r)

-- The value to be written is not sent.
unfoldable pub escribir_en_memoria : (ℕ → List ℕ) → List ℕ → List ℕ → Resultado (List ℕ × ℕ)
unfolding buffer_write enviar_operacion recibir_buffer buffer_read_uint32
escribir_en_memoria malloc apuntado respuesta = do
  b ← buffer_write (buffer_create (malloc 8)) (take 8 apuntado)
  enviado ← enviar_operacion memoria_cpu_write_mem b
  (r, _) ← recibir_buffer malloc respuesta
  (error_code, _) ← buffer_read_uint32 r
  ok (enviado, error_code)

-- `fetchInstruccion`: what is sent, and the text of the instruction
unfoldable pub fetch_instruccion : (ℕ → List ℕ) → ℕ → ℕ → ℕ → List ℕ → Resultado (List ℕ × List ℕ)
unfolding solicitar_instruccion recibir_buffer buffer_read_string
fetch_instruccion malloc pid tid pc respuesta = do
  enviado ← solicitar_instruccion (malloc 8) pid tid pc
  (b, _) ← recibir_buffer malloc respuesta
  (texto, _) ← buffer_read_string b
  ok (enviado, texto)

-- A word written at the start of a block that has room for it.
primera_palabra :
    (bloque : List ℕ) (n m : ℕ)
    → length bloque ≡ 4 + m
    → buffer_write (buffer_create bloque) (le32 n)
      ≡ ok (record { size = some (length bloque); offset = 4; stream = le32 n ++ drop 4 bloque })
primera_palabra bloque n m h = ground (
  arith,
  length-le32 n,
  buffer_write_lem (buffer_create bloque) (le32 n) [] bloque refl refl
      (omega (arith, h, length-le32 n)),
)

-- A word written after it.
segunda_palabra :
    (bloque : List ℕ) (n k : ℕ)
    → length bloque ≡ 8
    → buffer_write
        (record { size = some (length bloque); offset = 4; stream = le32 n ++ drop 4 bloque })
        (le32 k)
      ≡ ok (record { size = some (length bloque); offset = 8; stream = le32 n ++ (le32 k ++ []) })
segunda_palabra bloque n k h = ground (
  arith,
  length-le32 k,
  drop_todo (drop 4 bloque) 4 (omega (arith, h, length-drop 4 bloque)),
  buffer_write_lem
      (record { size = some (length bloque); offset = 4; stream = le32 n ++ drop 4 bloque })
      (le32 k) (le32 n) (drop 4 bloque) refl (sym (length-le32 n))
      (omega (arith, h, length-drop 4 bloque, length-le32 k)),
)

-- Nothing fits after the eighth byte of a block of eight.
tercera_palabra :
    (b : Buffer) (n : ℕ)
    → b.offset ≡ 8
    → length b.stream ≡ 8
    → buffer_write b (le32 n) ≡ falla fuera_de_bloque
unfolding buffer_write
tercera_palabra b n h k = ground (arith, length-le32 n)

-- The block that solicitar_instruccion asks for has eight bytes, and it writes three words into it:
-- whatever the process, the thread and the program counter, the third is written past its end.
pub solicitar_instruccion_falla :
    (bloque : List ℕ) (pid tid pc : ℕ)
    → length bloque ≡ 8
    → solicitar_instruccion bloque pid tid pc ≡ falla fuera_de_bloque
unfolding solicitar_instruccion
solicitar_instruccion_falla bloque pid tid pc h = ground (
  arith,
  primera_palabra bloque pid 4 h,
  segunda_palabra bloque pid tid h,
  tercera_palabra
      (record { size = some (length bloque); offset = 8; stream = le32 pid ++ (le32 tid ++ []) }) pc
      refl largo,
)
  where
    largo : length (le32 pid ++ (le32 tid ++ [])) ≡ 8
    largo = omega (
      arith,
      length-le32 pid,
      length-le32 tid,
      length-append (le32 pid) (le32 tid ++ []),
      length-append (le32 tid) [],
    )

-- solicitar_contexto fills its block of eight bytes with the process and the thread and sends the
-- operation, the size 8 and the block.
pub solicitar_contexto_lem :
    (bloque : List ℕ) (tcb : Tcb)
    → length bloque ≡ 8
    → solicitar_contexto bloque tcb
      ≡ ok (le32 memoria_cpu_obtener_contexto ++ (le32 8 ++ (le32 tcb.pid ++ (le32 tcb.tid ++ []))))
unfolding solicitar_contexto enviar_buffer
solicitar_contexto_lem bloque tcb h = ground (
  arith,
  h,
  primera_palabra bloque tcb.pid 4 h,
  segunda_palabra bloque tcb.pid tcb.tid h,
  length-le32 tcb.pid,
  length-le32 tcb.tid,
  length-append (le32 tcb.pid) (le32 tcb.tid ++ []),
  length-append (le32 tcb.tid) [],
  append-nil (le32 tcb.pid ++ (le32 tcb.tid ++ [])),
  take-length_append (le32 tcb.pid ++ (le32 tcb.tid ++ [])) [],
)

-- fetchInstruccion never gets an instruction: its request is written past the end of its block, when
-- malloc returns the eight bytes asked for.
pub fetch_instruccion_falla :
    (malloc : ℕ → List ℕ) (pid tid pc : ℕ) (respuesta : List ℕ)
    → length (malloc 8) ≡ 8
    → fetch_instruccion malloc pid tid pc respuesta ≡ falla fuera_de_bloque
unfolding fetch_instruccion
fetch_instruccion_falla malloc pid tid pc respuesta h =
    ground (arith, solicitar_instruccion_falla (malloc 8) pid tid pc h)
