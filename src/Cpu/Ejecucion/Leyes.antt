-- ===== src/Cpu/Ejecucion/Leyes.antt =====
-- What `executeInstruccion` of cpu/src/cpu.c does to the registers and the message.
use so_tp_2c.Prelude.{
  ℕ, ◌+◌, ◌-◌, ◌%◌, ◌^◌, ◌<◌, ◌≡◌, ◌≢◌, refl, sym, ◌∙◌, ◌⊎◌, inl, inr, Bool, true, false, none,
  some, List, [], ◌∷◌, ◌++◌, arith, leb, if◌then◌else◌,
}
use so_tp_2c.Prelude.Resultado.{ok, falla, puntero_nulo}
use so_tp_2c.Cpu.Registros.{
  Registro, valor_de, guardar, valor_de-guardar_same, valor_de-guardar_other,
}
use so_tp_2c.Cpu.Instruccion.{
  Codigo, set, read_mem, write_mem, sum, sub, dump_memory, io, process_create, thread_join,
  thread_cancel, mutex_create, mutex_lock, mutex_unlock, thread_exit, process_exit, thread_create,
  numero_de, Instruccion, parsear_tokens, recorrer_operandos, operando_hilo, obtener_instruccion,
}
use so_tp_2c.Cpu.Mmu.{obtener_direccion_fisica}
use so_tp_2c.Cpu.Ejecucion.{
  con_cabecera, direccion, es_negativo, op_out_of_memory, numero, Cpu, Entorno, execute_instruccion,
}

-- The system calls.
abbrev pub es_llamada : Codigo → Bool
es_llamada dump_memory = true
es_llamada io = true
es_llamada process_create = true
es_llamada thread_create = true
es_llamada thread_join = true
es_llamada thread_cancel = true
es_llamada mutex_create = true
es_llamada mutex_lock = true
es_llamada mutex_unlock = true
es_llamada thread_exit = true
es_llamada process_exit = true
es_llamada _ = false

module _ (e : Entorno) where
  -- A system call that returns interrupts the cycle.
  pub llamada-interrumpe :
      (k : Codigo) (i : Instruccion) (b : Bool) (c c' : Cpu)
      → execute_instruccion e i k c ≡ ok (b, c')
      → (es_llamada k ≡ false) ⊎ (b ≡ true)
  unfolding execute_instruccion
  llamada-interrumpe dump_memory i b c c' h = inr (ground (arith, h))
  llamada-interrumpe io i b c c' h = inr (ground (arith, h))
  llamada-interrumpe process_create i b c c' h = inr (ground (arith, h))
  llamada-interrumpe thread_create i b c c' h = inr (ground (arith, h))
  llamada-interrumpe thread_join i b c c' h = inr (ground (arith, h))
  llamada-interrumpe thread_cancel i b c c' h = inr (ground (arith, h))
  llamada-interrumpe mutex_create i b c c' h = inr (ground (arith, h))
  llamada-interrumpe mutex_lock i b c c' h = inr (ground (arith, h))
  llamada-interrumpe mutex_unlock i b c c' h = inr (ground (arith, h))
  llamada-interrumpe thread_exit i b c c' h = inr (ground (arith, h))
  llamada-interrumpe process_exit i b c c' h = inr (ground (arith, h))
  llamada-interrumpe _ i b c c' h = inl refl

  -- An instruction that interrupts the cycle leaves every register, the program counter included,
  -- as it was.
  pub interrumpe-quieta :
      (k : Codigo) (i : Instruccion) (c c' : Cpu)
      → execute_instruccion e i k c ≡ ok (true, c')
      → c'.registros ≡ c.registros
  unfolding execute_instruccion
  interrumpe-quieta set i c c' h = ground arith
  interrumpe-quieta _ i c c' h = ground arith

  -- SUM with all that it leaves alone.
  pub suma :
      (i : Instruccion) (c : Cpu) (x y : Registro)
      → i.registro1 ≡ some x
      → i.registro2 ≡ some y
      → (c' : Cpu) × (execute_instruccion e i sum c ≡ ok (false, c'))
        × (valor_de x c'.registros ≡ (valor_de x c.registros + valor_de y c.registros) % 2 ^ 32)
        × ((z : Registro) → z ≢ x → valor_de z c'.registros ≡ valor_de z c.registros)
  unfolding execute_instruccion
  suma i c x y p q =
      let v : ℕ = (valor_de x c.registros + valor_de y c.registros) % 2 ^ 32 in
      (
        con_cabecera e sum [] (record c { registros = guardar x v c.registros }),
        ground (arith, p, q),
        valor_de-guardar_same x v c.registros,
        λ z ne. valor_de-guardar_other x z v c.registros (λ s. ne (sym s)),
      )

  -- SUB with all that it leaves alone.
  pub resta :
      (i : Instruccion) (c : Cpu) (x y : Registro)
      → i.registro1 ≡ some x
      → i.registro2 ≡ some y
      → (c' : Cpu) × (execute_instruccion e i sub c ≡ ok (false, c'))
        × (valor_de x c'.registros
            ≡ (valor_de x c.registros + 2 ^ 32 - valor_de y c.registros) % 2 ^ 32)
        × ((z : Registro) → z ≢ x → valor_de z c'.registros ≡ valor_de z c.registros)
  unfolding execute_instruccion
  resta i c x y p q =
      let v : ℕ = (valor_de x c.registros + 2 ^ 32 - valor_de y c.registros) % 2 ^ 32 in
      (
        con_cabecera e sub [] (record c { registros = guardar x v c.registros }),
        ground (arith, p, q),
        valor_de-guardar_same x v c.registros,
        λ z ne. valor_de-guardar_other x z v c.registros (λ s. ne (sym s)),
      )

  -- After SUM the first register holds the sum of the two, modulo 2 ^ 32, and every other register
  -- is as it was; the cycle goes on.
  pub execute_sum_lem :
      (i : Instruccion) (c : Cpu) (x y z : Registro)
      → i.registro1 ≡ some x
      → i.registro2 ≡ some y
      → z ≢ x
      → (c' : Cpu) × (execute_instruccion e i sum c ≡ ok (false, c'))
        × (valor_de x c'.registros ≡ (valor_de x c.registros + valor_de y c.registros) % 2 ^ 32)
        × (valor_de z c'.registros ≡ valor_de z c.registros)
  execute_sum_lem i c x y z p q ne = let (c', a, b, d) = suma i c x y p q in (c', a, b, d z ne)

  -- SUM of two distinct registers followed by SUB of the same two gives the first register back
  -- its value, for registers of 32 bits.
  pub execute_sum-sub :
      (i j : Instruccion) (c : Cpu) (x y : Registro)
      → i.registro1 ≡ some x
      → i.registro2 ≡ some y
      → j.registro1 ≡ some x
      → j.registro2 ≡ some y
      → y ≢ x
      → valor_de x c.registros < 2 ^ 32
      → valor_de y c.registros < 2 ^ 32
      → (c' c'' : Cpu) × (execute_instruccion e i sum c ≡ ok (false, c'))
        × (execute_instruccion e j sub c' ≡ ok (false, c''))
        × (valor_de x c''.registros ≡ valor_de x c.registros)
  execute_sum-sub i j c x y p q r s ne hx hy =
      let (c', a, b, d) = suma i c x y p q in
      let same : valor_de y c'.registros ≡ valor_de y c.registros = d y ne in
      let (c'', f, g, h) = resta j c' x y r s in (c', c'', a, f, omega arith)

  -- READ_MEM loads what the memory module answers for the logical address in its second register,
  -- translated with the identifier of the process as base and that of the thread as limit, whatever
  -- the registers BASE and LIMITE hold.
  pub read_mem_direccion :
      (i : Instruccion) (c : Cpu) (x y : Registro)
      → i.registro1 ≡ some x
      → i.registro2 ≡ some y
      → (c' : Cpu) × (execute_instruccion e i read_mem c ≡ ok (false, c'))
        × (valor_de x c'.registros
            ≡ e.leer_en_memoria (
                if leb (valor_de y c.registros) e.thread_en_ejecucion
                then some ((valor_de y c.registros + e.proceso_en_ejecucion) % 2 ^ 32)
                else none))
  unfolding execute_instruccion obtener_direccion_fisica
  read_mem_direccion i c x y p q =
      let v : ℕ = e.leer_en_memoria (
        obtener_direccion_fisica (valor_de y c.registros) e.proceso_en_ejecucion
          e.thread_en_ejecucion) in
      (
        con_cabecera e read_mem [] (record c { registros = guardar x v c.registros }),
        ground (arith, p, q),
        valor_de-guardar_same x v c.registros ∙ ground arith,
      )

  -- WRITE_MEM with two registers, when its log line reads `value32` as some number, ends, and changes no register. It reports itself to the kernel as
  -- SUM: the code in its message is that of SUM, never its own, whether memory accepts the write or
  -- not; the last field is OP_OUT_OF_MEMORY, and the cycle is interrupted, exactly when it does not.
  pub write_mem_codigo :
      (i : Instruccion) (c : Cpu) (x y : Registro) (n : ℕ)
      → i.registro1 ≡ some x
      → i.registro2 ≡ some y
      → e.value_32_sin_valor ≡ ok n
      → let rechaza =
          es_negativo (
            e.escribir_en_memoria
              (direccion e (valor_de x c.registros))
              (valor_de y c.registros)) in
        (c' : Cpu) × (execute_instruccion e i write_mem c ≡ ok (rechaza, c'))
        × (c'.registros ≡ c.registros)
        × (c'.retorno
            ≡ c.retorno
              ++ (numero e.proceso_en_ejecucion
                  ∷ numero e.thread_en_ejecucion
                  ∷ numero (numero_de sum)
                  ∷ numero (if rechaza then op_out_of_memory else 0)
                  ∷ []))
        × (numero_de sum ≢ numero_de write_mem)
  unfolding execute_instruccion numero_de
  write_mem_codigo i c x y n p q h =
      let rechaza : Bool =
        es_negativo
          (e.escribir_en_memoria (direccion e (valor_de x c.registros)) (valor_de y c.registros)) in
      (
        con_cabecera e sum (numero (if rechaza then op_out_of_memory else 0) ∷ []) c,
        ground (arith, p, q, h),
        refl,
        refl,
        omega arith,
      )

-- No operand of THREAD_CREATE sets the second register.
recorrer_hilo :
    (ts : List (List ℕ)) (n : ℕ) (i : Instruccion)
    → i.registro2 ≡ none
    → (recorrer_operandos operando_hilo n ts i).registro2 ≡ none
unfolding recorrer_operandos operando_hilo
recorrer_hilo [] n i h = h
recorrer_hilo (t ∷ ts) n i h = recorrer_hilo ts (n + 1) (operando_hilo (n + 1) t i) (ground arith)

registro2_thread_create :
    (token : List ℕ) (ts : List (List ℕ))
    → obtener_instruccion token ≡ thread_create
    → (parsear_tokens (token ∷ ts)).registro2 ≡ none
unfolding parsear_tokens
registro2_thread_create token ts h = rw h (recorrer_hilo ts 0 _ refl)

module _ (e : Entorno) where
  thread_create_nulo :
      (i : Instruccion) (c : Cpu)
      → i.registro2 ≡ none
      → execute_instruccion e i thread_create c ≡ falla puntero_nulo
  unfolding execute_instruccion
  thread_create_nulo i c h = ground (arith, h)

  -- Whatever its operands, an instruction whose first word is THREAD_CREATE reads through NULL when
  -- it is executed: its log line reads the second register, which the parser never sets.
  pub thread_create_falla :
      (token : List ℕ) (ts : List (List ℕ)) (c : Cpu)
      → obtener_instruccion token ≡ thread_create
      → execute_instruccion e (parsear_tokens (token ∷ ts)) thread_create c ≡ falla puntero_nulo
  thread_create_falla token ts c h = thread_create_nulo _ c (registro2_thread_create token ts h)
