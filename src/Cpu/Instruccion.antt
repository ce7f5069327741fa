-- ===== src/Cpu/Instruccion.antt =====
-- Instructions and their parser: `instruccion`, `t_instruccion` of utils/src/commons.h, and
-- `obtenerInstruccion`, `parsearInstruccion` of cpu/src/cpu.c.
pub mod Sentencia
use so_tp_2c.Prelude.{
  ℕ, ◌+◌, Bool, true, false, Option, none, some, List, [], ◌∷◌, ◌==◌, if◌then◌else◌,
}
use so_tp_2c.Comunes.Texto.{codes, texto_eq, atoi, tokens}
use so_tp_2c.Cpu.Registros.{Registro, pc, obtener_registro}

-- The enum `instruccion`, in its order.
pub data Codigo : Type 0 where
  set read_mem write_mem sum sub jnz log : Codigo
  dump_memory io process_create thread_create thread_join thread_cancel : Codigo
  mutex_create mutex_lock mutex_unlock thread_exit process_exit : Codigo
  resize copy_string wait signal inst_exit invalid_instruction : Codigo

-- The number of a code in the enum.
unfoldable pub numero_de : Codigo → ℕ
numero_de set = 0
numero_de read_mem = 1
numero_de write_mem = 2
numero_de sum = 3
numero_de sub = 4
numero_de jnz = 5
numero_de log = 6
numero_de dump_memory = 7
numero_de io = 8
numero_de process_create = 9
numero_de thread_create = 10
numero_de thread_join = 11
numero_de thread_cancel = 12
numero_de mutex_create = 13
numero_de mutex_lock = 14
numero_de mutex_unlock = 15
numero_de thread_exit = 16
numero_de process_exit = 17
numero_de resize = 18
numero_de copy_string = 19
numero_de wait = 20
numero_de signal = 21
numero_de inst_exit = 22
numero_de invalid_instruction = 23

unfoldable pub obtener_instruccion : List ℕ → Codigo
obtener_instruccion token =
    if texto_eq token (codes "SET")
    then set
    else if texto_eq token (codes "READ_MEM")
    then read_mem
    else if texto_eq token (codes "WRITE_MEM")
    then write_mem
    else if texto_eq token (codes "SUM")
    then sum
    else if texto_eq token (codes "SUB")
    then sub
    else if texto_eq token (codes "JNZ")
    then jnz
    else if texto_eq token (codes "LOG")
    then log
    else if texto_eq token (codes "DUMP_MEMORY")
    then dump_memory
    else if texto_eq token (codes "IO")
    then io
    else if texto_eq token (codes "PROCESS_CREATE")
    then process_create
    else if texto_eq token (codes "THREAD_CREATE")
    then thread_create
    else if texto_eq token (codes "THREAD_JOIN")
    then thread_join
    else if texto_eq token (codes "THREAD_CANCEL")
    then thread_cancel
    else if texto_eq token (codes "MUTEX_CREATE")
    then mutex_create
    else if texto_eq token (codes "MUTEX_LOCK")
    then mutex_lock
    else if texto_eq token (codes "MUTEX_UNLOCK")
    then mutex_unlock
    else if texto_eq token (codes "THREAD_EXIT")
    then thread_exit
    else if texto_eq token (codes "PROCESS_EXIT")
    then process_exit
    else if texto_eq token (codes "RESIZE")
    then resize
    else if texto_eq token (codes "COPY_STRING")
    then copy_string
    else if texto_eq token (codes "WAIT")
    then wait
    else invalid_instruction

-- `t_instruccion`
pub record Instruccion : Type 0 where
  pub instruccion : Codigo
  pub registro1 : Option Registro
  pub registro2 : Option Registro
  pub registro3 : Option Registro
  pub valor : ℕ
  pub interfaz : Option (List ℕ)
  pub archivo : Option (List ℕ)
  pub recurso : Option (List ℕ)

-- `inicializarInstruccion`: all bytes zero, so the code is the first of the enum.
abbrev pub inicializar_instruccion : Instruccion
inicializar_instruccion = record {
  instruccion = set;
  registro1 = none;
  registro2 = none;
  registro3 = none;
  valor = 0;
  interfaz = none;
  archivo = none;
  recurso = none;
}

-- The loops over the operands: `operandoCount`, the token, and the instruction so far.
abbrev Operando : Type 0
Operando = ℕ → List ℕ → Instruccion → Instruccion

unfoldable pub recorrer_operandos : Operando → ℕ → List (List ℕ) → Instruccion → Instruccion
recorrer_operandos operando n [] i = i
recorrer_operandos operando n (token ∷ ts) i =
    recorrer_operandos operando (n + 1) ts (operando (n + 1) token i)

-- SET and JNZ
unfoldable pub operando_valor : Operando
operando_valor n token i =
    if n == 1
    then record i { registro1 = obtener_registro token }
    else if n == 2
    then record i { valor = atoi token }
    else i

-- READ_MEM, WRITE_MEM, SUM, SUB
unfoldable pub operando_registros : Operando
operando_registros n token i =
    if n == 1
    then record i { registro1 = obtener_registro token }
    else if n == 2
    then record i { registro2 = obtener_registro token }
    else i

-- LOG, IO, THREAD_JOIN, THREAD_CANCEL: the last token counts.
unfoldable pub operando_numero : Operando
operando_numero n token i = record i { valor = atoi token }

unfoldable pub operando_proceso : Operando
operando_proceso n token i =
    if n == 1
    then record i { archivo = some token }
    else if n == 2
    then record i { registro1 = obtener_registro token }
    else if n == 3
    then record i { registro2 = obtener_registro token }
    else i

unfoldable pub operando_hilo : Operando
operando_hilo n token i =
    if n == 1
    then record i { archivo = some token }
    else if n == 2
    then record i { registro1 = obtener_registro token }
    else i

-- MUTEX_CREATE, MUTEX_LOCK, MUTEX_UNLOCK: the last token counts.
unfoldable pub operando_recurso : Operando
operando_recurso n token i = record i { recurso = some token }

-- The `switch` on the code.
unfoldable pub parsear_operandos : Codigo → List (List ℕ) → Instruccion → Instruccion
unfolding recorrer_operandos operando_valor operando_registros operando_numero operando_proceso
    operando_hilo operando_recurso
parsear_operandos set ts i = recorrer_operandos operando_valor 0 ts i
parsear_operandos jnz ts i = record (recorrer_operandos operando_valor 0 ts i) {
  registro2 = some pc;
}
parsear_operandos read_mem ts i = recorrer_operandos operando_registros 0 ts i
parsear_operandos write_mem ts i = recorrer_operandos operando_registros 0 ts i
parsear_operandos sum ts i = recorrer_operandos operando_registros 0 ts i
parsear_operandos sub ts i = recorrer_operandos operando_registros 0 ts i
parsear_operandos log ts i = recorrer_operandos operando_numero 0 ts i
parsear_operandos io ts i = recorrer_operandos operando_numero 0 ts i
parsear_operandos process_create ts i = recorrer_operandos operando_proceso 0 ts i
parsear_operandos thread_create ts i = recorrer_operandos operando_hilo 0 ts i
parsear_operandos thread_join ts i = recorrer_operandos operando_numero 0 ts i
parsear_operandos thread_cancel ts i = recorrer_operandos operando_numero 0 ts i
parsear_operandos mutex_create ts i = recorrer_operandos operando_recurso 0 ts i
parsear_operandos mutex_lock ts i = recorrer_operandos operando_recurso 0 ts i
parsear_operandos mutex_unlock ts i = recorrer_operandos operando_recurso 0 ts i
parsear_operandos c ts i = i

unfoldable pub parsear_tokens : List (List ℕ) → Instruccion
unfolding parsear_operandos
parsear_tokens [] = inicializar_instruccion
parsear_tokens (token ∷ ts) =
    let codigo = obtener_instruccion token in
    parsear_operandos codigo ts (record inicializar_instruccion { instruccion = codigo })

unfoldable pub parsear_instruccion : List ℕ → Instruccion
unfolding parsear_tokens
parsear_instruccion texto = parsear_tokens (tokens texto)
