-- ===== src/Cpu/Instruccion/Sentencia.antt =====
-- The instructions of a program as it is written, and that `parsearInstruccion` of cpu/src/cpu.c
-- reads each of them back.
use so_tp_2c.Prelude.{ℕ, ◌^◌, ◌<◌, ◌≡◌, refl, ap, ◌∙◌, some, List, [], ◌∷◌, arith}
use so_tp_2c.Comunes.Texto.{codes, texto_eq, itoa}
use so_tp_2c.Comunes.Texto.Decimal.{atoi-itoa, itoa-Palabra}
use so_tp_2c.Comunes.Texto.Palabras.{Palabra, Palabras, unir, tokens-unir}
use so_tp_2c.Cpu.Registros.{
  Registro, pc, nombre_registro, obtener_registro-nombre, nombre_registro-Palabra,
}
use so_tp_2c.Cpu.Instruccion.{
  Codigo, set, read_mem, write_mem, sum, sub, jnz, log, dump_memory, io, process_create,
  thread_create, thread_join, thread_cancel, mutex_create, mutex_lock, mutex_unlock, thread_exit,
  process_exit, Instruccion, inicializar_instruccion, obtener_instruccion, parsear_tokens,
  parsear_instruccion,
}

pub data Sentencia : Type 0 where
  -- SET, JNZ
  asigna salta : Registro → ℕ → Sentencia
  -- READ_MEM, WRITE_MEM, SUM, SUB
  lee_memoria escribe_memoria suma resta : Registro → Registro → Sentencia
  -- LOG, IO, THREAD_JOIN, THREAD_CANCEL
  registra espera_io une_hilo cancela_hilo : ℕ → Sentencia
  -- PROCESS_CREATE, THREAD_CREATE
  crea_proceso : List ℕ → Registro → Registro → Sentencia
  crea_hilo : List ℕ → Registro → Sentencia
  -- MUTEX_CREATE, MUTEX_LOCK, MUTEX_UNLOCK
  crea_mutex toma_mutex suelta_mutex : List ℕ → Sentencia
  -- DUMP_MEMORY, THREAD_EXIT, PROCESS_EXIT
  vuelca_memoria sale_hilo sale_proceso : Sentencia

pub palabras : Sentencia → List (List ℕ)
palabras (asigna x v) = codes "SET" ∷ nombre_registro x ∷ itoa v ∷ []
palabras (salta x v) = codes "JNZ" ∷ nombre_registro x ∷ itoa v ∷ []
palabras (lee_memoria x y) = codes "READ_MEM" ∷ nombre_registro x ∷ nombre_registro y ∷ []
palabras (escribe_memoria x y) = codes "WRITE_MEM" ∷ nombre_registro x ∷ nombre_registro y ∷ []
palabras (suma x y) = codes "SUM" ∷ nombre_registro x ∷ nombre_registro y ∷ []
palabras (resta x y) = codes "SUB" ∷ nombre_registro x ∷ nombre_registro y ∷ []
palabras (registra v) = codes "LOG" ∷ itoa v ∷ []
palabras (espera_io v) = codes "IO" ∷ itoa v ∷ []
palabras (une_hilo v) = codes "THREAD_JOIN" ∷ itoa v ∷ []
palabras (cancela_hilo v) = codes "THREAD_CANCEL" ∷ itoa v ∷ []
palabras (crea_proceso a x y) =
    codes "PROCESS_CREATE" ∷ a ∷ nombre_registro x ∷ nombre_registro y ∷ []
palabras (crea_hilo a x) = codes "THREAD_CREATE" ∷ a ∷ nombre_registro x ∷ []
palabras (crea_mutex a) = codes "MUTEX_CREATE" ∷ a ∷ []
palabras (toma_mutex a) = codes "MUTEX_LOCK" ∷ a ∷ []
palabras (suelta_mutex a) = codes "MUTEX_UNLOCK" ∷ a ∷ []
palabras vuelca_memoria = codes "DUMP_MEMORY" ∷ []
palabras sale_hilo = codes "THREAD_EXIT" ∷ []
palabras sale_proceso = codes "PROCESS_EXIT" ∷ []

-- Numbers of 32 bits, and names that are one word.
abbrev pub EsValida : Sentencia → Type 0
EsValida (asigna x v) = v < 2 ^ 32
EsValida (salta x v) = v < 2 ^ 32
EsValida (registra v) = v < 2 ^ 32
EsValida (espera_io v) = v < 2 ^ 32
EsValida (une_hilo v) = v < 2 ^ 32
EsValida (cancela_hilo v) = v < 2 ^ 32
EsValida (crea_proceso a x y) = Palabra a
EsValida (crea_hilo a x) = Palabra a
EsValida (crea_mutex a) = Palabra a
EsValida (toma_mutex a) = Palabra a
EsValida (suelta_mutex a) = Palabra a
EsValida _ = Unit {0}

abbrev de_valor : Codigo → Registro → ℕ → Instruccion
de_valor k x v = record inicializar_instruccion { instruccion = k; registro1 = some x; valor = v }

abbrev de_registros : Codigo → Registro → Registro → Instruccion
de_registros k x y = record inicializar_instruccion {
  instruccion = k;
  registro1 = some x;
  registro2 = some y;
}

abbrev de_numero : Codigo → ℕ → Instruccion
de_numero k v = record inicializar_instruccion { instruccion = k; valor = v }

abbrev de_recurso : Codigo → List ℕ → Instruccion
de_recurso k a = record inicializar_instruccion { instruccion = k; recurso = some a }

-- The record that stands for an instruction.
abbrev pub instruccion_de : Sentencia → Instruccion
instruccion_de (asigna x v) = de_valor set x v
instruccion_de (salta x v) = record (de_valor jnz x v) { registro2 = some pc }
instruccion_de (lee_memoria x y) = de_registros read_mem x y
instruccion_de (escribe_memoria x y) = de_registros write_mem x y
instruccion_de (suma x y) = de_registros sum x y
instruccion_de (resta x y) = de_registros sub x y
instruccion_de (registra v) = de_numero log v
instruccion_de (espera_io v) = de_numero io v
instruccion_de (une_hilo v) = de_numero thread_join v
instruccion_de (cancela_hilo v) = de_numero thread_cancel v
instruccion_de (crea_proceso a x y) = record (de_registros process_create x y) { archivo = some a }
instruccion_de (crea_hilo a x) = record inicializar_instruccion {
  instruccion = thread_create;
  registro1 = some x;
  archivo = some a;
}
instruccion_de (crea_mutex a) = de_recurso mutex_create a
instruccion_de (toma_mutex a) = de_recurso mutex_lock a
instruccion_de (suelta_mutex a) = de_recurso mutex_unlock a
instruccion_de vuelca_memoria = record inicializar_instruccion { instruccion = dump_memory }
instruccion_de sale_hilo = record inicializar_instruccion { instruccion = thread_exit }
instruccion_de sale_proceso = record inicializar_instruccion { instruccion = process_exit }

palabras-Palabras : (s : Sentencia) → EsValida s → Palabras (palabras s)
unfolding palabras
palabras-Palabras (asigna x v) h =
    ((λ e. cc, omega arith), (nombre_registro-Palabra x, (itoa-Palabra v, tt)))
palabras-Palabras (salta x v) h =
    ((λ e. cc, omega arith), (nombre_registro-Palabra x, (itoa-Palabra v, tt)))
palabras-Palabras (lee_memoria x y) h =
    ((λ e. cc, omega arith), (nombre_registro-Palabra x, (nombre_registro-Palabra y, tt)))
palabras-Palabras (escribe_memoria x y) h =
    ((λ e. cc, omega arith), (nombre_registro-Palabra x, (nombre_registro-Palabra y, tt)))
palabras-Palabras (suma x y) h =
    ((λ e. cc, omega arith), (nombre_registro-Palabra x, (nombre_registro-Palabra y, tt)))
palabras-Palabras (resta x y) h =
    ((λ e. cc, omega arith), (nombre_registro-Palabra x, (nombre_registro-Palabra y, tt)))
palabras-Palabras (registra v) h = ((λ e. cc, omega arith), (itoa-Palabra v, tt))
palabras-Palabras (espera_io v) h = ((λ e. cc, omega arith), (itoa-Palabra v, tt))
palabras-Palabras (une_hilo v) h = ((λ e. cc, omega arith), (itoa-Palabra v, tt))
palabras-Palabras (cancela_hilo v) h = ((λ e. cc, omega arith), (itoa-Palabra v, tt))
palabras-Palabras (crea_proceso a x y) h =
    ((λ e. cc, omega arith), (h, (nombre_registro-Palabra x, (nombre_registro-Palabra y, tt))))
palabras-Palabras (crea_hilo a x) h = ((λ e. cc, omega arith), (h, (nombre_registro-Palabra x, tt)))
palabras-Palabras (crea_mutex a) h = ((λ e. cc, omega arith), (h, tt))
palabras-Palabras (toma_mutex a) h = ((λ e. cc, omega arith), (h, tt))
palabras-Palabras (suelta_mutex a) h = ((λ e. cc, omega arith), (h, tt))
palabras-Palabras vuelca_memoria h = ((λ e. cc, omega arith), tt)
palabras-Palabras sale_hilo h = ((λ e. cc, omega arith), tt)
palabras-Palabras sale_proceso h = ((λ e. cc, omega arith), tt)

parsear_tokens-palabras :
    (s : Sentencia) → EsValida s → parsear_tokens (palabras s) ≡ instruccion_de s
unfolding parsear_tokens palabras obtener_instruccion texto_eq
parsear_tokens-palabras (asigna x v) h = rw (obtener_registro-nombre x, atoi-itoa v h)
parsear_tokens-palabras (salta x v) h = rw (obtener_registro-nombre x, atoi-itoa v h)
parsear_tokens-palabras (lee_memoria x y) h = simp obtener_registro-nombre
parsear_tokens-palabras (escribe_memoria x y) h = simp obtener_registro-nombre
parsear_tokens-palabras (suma x y) h = simp obtener_registro-nombre
parsear_tokens-palabras (resta x y) h = simp obtener_registro-nombre
parsear_tokens-palabras (registra v) h = rw (atoi-itoa v h)
parsear_tokens-palabras (espera_io v) h = rw (atoi-itoa v h)
parsear_tokens-palabras (une_hilo v) h = rw (atoi-itoa v h)
parsear_tokens-palabras (cancela_hilo v) h = rw (atoi-itoa v h)
parsear_tokens-palabras (crea_proceso a x y) h = simp obtener_registro-nombre
parsear_tokens-palabras (crea_hilo a x) h = simp obtener_registro-nombre
parsear_tokens-palabras _ h = refl

-- Every instruction, written with single spaces between its words, is parsed to the record that
-- stands for it: its code, its registers, its number and its names. Numbers have 32 bits, and names
-- are one word.
pub parsear_instruccion-unir :
    (s : Sentencia) → EsValida s → parsear_instruccion (unir (palabras s)) ≡ instruccion_de s
unfolding parsear_instruccion
parsear_instruccion-unir s h =
    ap parsear_tokens (tokens-unir (palabras s) (palabras-Palabras s h))
    ∙ parsear_tokens-palabras s h
