-- ===== src/Cpu/Ejecucion.antt =====
-- `executeInstruccion` of cpu/src/cpu.c. The fields that it appends to `bufferRetorno` are a list:
-- the block of that buffer, which is created with size 0, is not modelled. The log is left out, but
-- for the pointers that it reads.
pub mod Leyes
use so_tp_2c.Prelude.{
  ℕ, ◌+◌, ◌-◌, ◌%◌, ◌^◌, ◌≡◌, Bool, true, false, Option, none, some, List, [], ◌∷◌, ◌++◌, leb, ◌==◌,
  if◌then◌else◌,
}
use so_tp_2c.Prelude.Resultado.{Resultado, ok, falla, puntero_nulo, ◌>>=◌, ◌>>◌}
use so_tp_2c.Cpu.Registros.{Registro, Registros, pc, leer, escribir, valor_de, guardar}
use so_tp_2c.Cpu.Instruccion.{
  Codigo, set, read_mem, write_mem, sum, sub, jnz, log, dump_memory, io, process_create,
  thread_create, thread_join, thread_cancel, mutex_create, mutex_lock, mutex_unlock, thread_exit,
  process_exit, numero_de, Instruccion,
}
use so_tp_2c.Cpu.Mmu.{obtener_direccion_fisica}

-- A field of a message: a 32-bit number, or a text with its length before it.
pub data Campo : Type 0 where
  numero : ℕ → Campo
  texto : List ℕ → Campo

-- The registers, and the message that goes back to the kernel.
pub record Cpu : Type 0 where
  pub registros : Registros
  pub retorno : List Campo

-- The answers of the memory module to `leer_en_memoria` and `escribir_en_memoria`, the globals
-- `procesoEnEjecucion` and `threadEnEjecucion`, and `value_32_sin_valor`: what the log line of WRITE_MEM
-- gets when it reads `value32`, a variable that only READ_MEM sets.
pub record Entorno : Type 0 where
  pub leer_en_memoria : Option ℕ → ℕ
  pub escribir_en_memoria : Option ℕ → ℕ → ℕ
  pub proceso_en_ejecucion : ℕ
  pub thread_en_ejecucion : ℕ
  pub value_32_sin_valor : Resultado ℕ

-- OP_OUT_OF_MEMORY
abbrev pub op_out_of_memory : ℕ
op_out_of_memory = 2

-- `errorCode < 0`, for the answer of 32 bits read as an `int`.
abbrev pub es_negativo : ℕ → Bool
es_negativo w = leb (2 ^ 31) w

module _ (e : Entorno) where
  -- Process, thread and code, then further fields.
  abbrev pub con_cabecera : Codigo → List Campo → Cpu → Cpu
  con_cabecera codigo campos c = record c {
    retorno =
        c.retorno
        ++ (numero e.proceso_en_ejecucion
            ∷ numero e.thread_en_ejecucion
            ∷ numero (numero_de codigo)
            ∷ campos);
  }

  -- What `buffer_add_string` reads.
  abbrev pub cadena : Option (List ℕ) → Resultado (List ℕ)
  cadena none = falla puntero_nulo
  cadena (some t) = ok t

  -- The address handed to the memory module: the process and the thread stand where
  -- `obtener_direccion_fisica` takes base and limit.
  abbrev pub direccion : ℕ → Option ℕ
  direccion dir = obtener_direccion_fisica dir e.proceso_en_ejecucion e.thread_en_ejecucion

  unfoldable pub execute_set : Instruccion → Cpu → Resultado (Bool × Cpu)
  execute_set i c = do
    r ← escribir i.registro1 i.valor c.registros
    ok (false, con_cabecera set [] (record c { registros = r }))

  unfoldable pub execute_read_mem : Instruccion → Cpu → Resultado (Bool × Cpu)
  execute_read_mem i c = do
    dir ← leer i.registro2 c.registros
    r ← escribir i.registro1 (e.leer_en_memoria (direccion dir)) c.registros
    ok (false, con_cabecera read_mem [] (record c { registros = r }))

  -- The message carries the code of SUM. The log line reads `value32` of READ_MEM.
  unfoldable pub execute_write_mem : Instruccion → Cpu → Resultado (Bool × Cpu)
  execute_write_mem i c = do
    dir ← leer i.registro1 c.registros
    v ← leer i.registro2 c.registros
    _ ← e.value_32_sin_valor
    if es_negativo (e.escribir_en_memoria (direccion dir) v)
        then ok (true, con_cabecera sum (numero op_out_of_memory ∷ []) c)
        else ok (false, con_cabecera sum (numero 0 ∷ []) c)

  unfoldable pub execute_sum : Instruccion → Cpu → Resultado (Bool × Cpu)
  execute_sum i c = do
    a ← leer i.registro1 c.registros
    b ← leer i.registro2 c.registros
    r ← escribir i.registro1 ((a + b) % 2 ^ 32) c.registros
    ok (false, con_cabecera sum [] (record c { registros = r }))

  -- Here the two pointers are checked.
  abbrev restar : Option Registro → Option Registro → Registros → Registros
  restar none y r = r
  restar (some x) none r = r
  restar (some x) (some y) r = guardar x ((valor_de x r + 2 ^ 32 - valor_de y r) % 2 ^ 32) r

  unfoldable pub execute_sub : Instruccion → Cpu → Resultado (Bool × Cpu)
  execute_sub i c = ok (
    false,
    con_cabecera sub [] (record c { registros = restar i.registro1 i.registro2 c.registros }),
  )

  unfoldable pub execute_jnz : Instruccion → Cpu → Resultado (Bool × Cpu)
  execute_jnz i c = do
    a ← leer i.registro1 c.registros
    ok (
      false,
      con_cabecera jnz []
          (if a == 0 then c else record c { registros = guardar pc i.valor c.registros }),
    )

  -- The log line reads both registers.
  unfoldable pub execute_process_create : Instruccion → Cpu → Resultado (Bool × Cpu)
  execute_process_create i c = do
    a ← leer i.registro1 c.registros
    archivo ← cadena i.archivo
    b ← leer i.registro2 c.registros
    ok (true, con_cabecera process_create (texto archivo ∷ numero a ∷ numero b ∷ []) c)

  unfoldable pub execute_thread_create : Instruccion → Cpu → Resultado (Bool × Cpu)
  execute_thread_create i c = do
    a ← leer i.registro1 c.registros
    b ← leer i.registro2 c.registros
    archivo ← cadena i.archivo
    ok (true, con_cabecera thread_create (texto archivo ∷ numero a ∷ []) c)

  -- MUTEX_CREATE, MUTEX_LOCK, MUTEX_UNLOCK
  unfoldable pub execute_mutex : Codigo → Instruccion → Cpu → Resultado (Bool × Cpu)
  execute_mutex codigo i c = do
    recurso ← cadena i.recurso
    ok (true, con_cabecera codigo (texto recurso ∷ []) c)

  -- Whether the cycle is interrupted, and the CPU afterwards.
  unfoldable pub execute_instruccion : Instruccion → Codigo → Cpu → Resultado (Bool × Cpu)
  unfolding execute_set execute_read_mem execute_write_mem execute_sum execute_sub execute_jnz
      execute_process_create execute_thread_create execute_mutex
  execute_instruccion i set c = execute_set i c
  execute_instruccion i read_mem c = execute_read_mem i c
  execute_instruccion i write_mem c = execute_write_mem i c
  execute_instruccion i sum c = execute_sum i c
  execute_instruccion i sub c = execute_sub i c
  execute_instruccion i jnz c = execute_jnz i c
  execute_instruccion i log c = ok (false, con_cabecera log [] c)
  execute_instruccion i dump_memory c = ok (true, con_cabecera dump_memory [] c)
  execute_instruccion i io c = ok (true, con_cabecera io (numero i.valor ∷ []) c)
  execute_instruccion i process_create c = execute_process_create i c
  execute_instruccion i thread_create c = execute_thread_create i c
  execute_instruccion i thread_join c = ok (true, con_cabecera thread_join (numero i.valor ∷ []) c)
  execute_instruccion i thread_cancel c =
      ok (true, con_cabecera thread_cancel (numero i.valor ∷ []) c)
  execute_instruccion i mutex_create c = execute_mutex mutex_create i c
  execute_instruccion i mutex_lock c = execute_mutex mutex_lock i c
  execute_instruccion i mutex_unlock c = execute_mutex mutex_unlock i c
  execute_instruccion i process_exit c = ok (true, con_cabecera process_exit [] c)
  execute_instruccion i thread_exit c = ok (true, con_cabecera thread_exit [] c)
  execute_instruccion i _ c = ok (false, c)
