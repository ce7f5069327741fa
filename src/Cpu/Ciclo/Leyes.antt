-- ===== src/Cpu/Ciclo/Leyes.antt =====
-- What the instruction cycle of cpu/src/cpu.c does with the program counter, and that it ends.
use so_tp_2c.Prelude.{
  ℕ, zero, suc, ◌+◌, ◌*◌, ◌%◌, ◌^◌, ◌<◌, ◌≡◌, ◌≢◌, refl, sym, ap, ◌∙◌, inl, inr, ◌⊎◌, Bool, true,
  false, ◌||◌, Option, some, List, [], arith, ◌==◌, if◌then◌else◌, Bool-cases,
}
use so_tp_2c.Prelude.Resultado.{Resultado, ok, exit_failure, falla, Resultado-cases}
use so_tp_2c.Cpu.Registros.{Registro, pc, valor_de, guardar, valor_de-guardar_other}
use so_tp_2c.Cpu.Instruccion.{Instruccion, Codigo, jnz, sum, parsear_instruccion}
use so_tp_2c.Cpu.Ejecucion.{con_cabecera, Cpu, Entorno, execute_instruccion}
use so_tp_2c.Cpu.Ejecucion.Leyes.{es_llamada, llamada-interrumpe, interrumpe-quieta, suma}
use so_tp_2c.Cpu.Ciclo.{avanzar, ciclo, ejecutar_ciclos}

pc-avanzar : (c : Cpu) → (avanzar c).registros.pc ≡ (c.registros.pc + 1) % 2 ^ 32
unfolding guardar
pc-avanzar c = refl

valor_de-avanzar :
    (c : Cpu) (z : Registro) → z ≢ pc → valor_de z (avanzar c).registros ≡ valor_de z c.registros
valor_de-avanzar c z ne = valor_de-guardar_other pc z _ c.registros (λ s. ne (sym s))

module _ (e : Entorno) (fetch : ℕ → Option (List ℕ)) where
  -- A round whose instruction runs.
  ciclo_ok :
      (recibida b : Bool) (c c' : Cpu) (inst : List ℕ) (i : Instruccion) (k : Codigo)
      → fetch c.registros.pc ≡ some inst
      → parsear_instruccion inst ≡ i
      → i.instruccion ≡ k
      → execute_instruccion e i k c ≡ ok (b, c')
      → ciclo e fetch recibida c ≡ (if b || recibida then ok (b, c') else ok (b, avanzar c'))
  unfolding ciclo
  ciclo_ok recibida b c c' inst i k f p q x = ground (arith, f, x, p, q)

  -- A round with a system call, when it returns, interrupts the cycle from inside; and a round that
  -- does, whatever its instruction, leaves the program counter and all registers as they were, so that
  -- the same instruction is the next to be fetched.
  pub ciclo_interrumpido :
      (recibida b : Bool) (c c' : Cpu) (inst : List ℕ)
      → fetch c.registros.pc ≡ some inst
      → ciclo e fetch recibida c ≡ ok (b, c')
      → ((es_llamada (parsear_instruccion inst).instruccion ≡ false) ⊎ (b ≡ true))
        × ((b ≡ false) ⊎ (c'.registros ≡ c.registros))
  unfolding ciclo
  ciclo_interrumpido recibida b c c' inst s h =
      let i = parsear_instruccion inst in
      elim (Resultado-cases (execute_instruccion e i i.instruccion c)) [
        | inl ((true, c2), x) ↦ (
          inr (ground (arith, h, s, x)),
          inr (ground (arith, h, s, x, interrumpe-quieta e i.instruccion i c c2 x)),
        )
        | inl ((false, c2), x) ↦ (
          ground (arith, h, s, x, llamada-interrumpe e i.instruccion i false c c2 x),
          inl (ground (arith, h, s, x)),
        )
        | inr (inl x) ↦ ground (arith, h, s, x)
        | inr (inr (f, x)) ↦ ground (arith, h, s, x)
      ]

  salto :
      (i : Instruccion) (c : Cpu) (x : Registro)
      → i.registro1 ≡ some x
      → (c' : Cpu) × (execute_instruccion e i jnz c ≡ ok (false, c'))
        × (c'.registros.pc ≡ (if valor_de x c.registros == 0 then c.registros.pc else i.valor))
  unfolding execute_instruccion guardar
  salto i c x r = (
    con_cabecera e jnz [] (
        if valor_de x c.registros == 0
        then c
        else record c { registros = guardar pc i.valor c.registros }),
    ground (arith, r),
    ground arith,
  )

  -- A jump that is taken, and not interrupted, goes on at the instruction after its target: the
  -- program counter is increased after it has been set. One that is not taken goes on at the next.
  pub ciclo_jnz :
      (c : Cpu) (inst : List ℕ) (i : Instruccion) (x : Registro)
      → fetch c.registros.pc ≡ some inst
      → parsear_instruccion inst ≡ i
      → i.instruccion ≡ jnz
      → i.registro1 ≡ some x
      → (c' : Cpu) × (ciclo e fetch false c ≡ ok (false, c'))
        × (c'.registros.pc ≡ (
            if valor_de x c.registros == 0
            then (c.registros.pc + 1) % 2 ^ 32
            else (i.valor + 1) % 2 ^ 32))
  ciclo_jnz c inst i x f p k r =
      let (c1, a, b) = salto i c x r in
      (avanzar c1, ciclo_ok false false c c1 inst i jnz f p k a, ground (arith, pc-avanzar c1, b))

  -- An addition of a register into another one that is not the program counter, in a round that reads
  -- the interruption flag as set, is done and the program counter stays; a next round on the registers
  -- that it leaves, not interrupted, does it again, so that the second register has been added twice.
  pub ciclo_suma_doble :
      (c : Cpu) (inst : List ℕ) (i : Instruccion) (x y : Registro)
      → fetch c.registros.pc ≡ some inst
      → parsear_instruccion inst ≡ i
      → i.instruccion ≡ sum
      → i.registro1 ≡ some x
      → i.registro2 ≡ some y
      → x ≢ pc
      → y ≢ x
      → (c' c'' : Cpu) × (ciclo e fetch true c ≡ ok (false, c'))
        × (ciclo e fetch false c' ≡ ok (false, c''))
        × (valor_de x c''.registros
            ≡ (valor_de x c.registros + 2 * valor_de y c.registros) % 2 ^ 32)
        × (c''.registros.pc ≡ (c.registros.pc + 1) % 2 ^ 32)
  unfolding valor_de
  ciclo_suma_doble c inst i x y f p k r s np ne =
      let (c1, a, b, d) = suma e i c x y r s in
      let (c2, g, h, j) = suma e i c1 x y r s in
      let pc1 : c1.registros.pc ≡ c.registros.pc = d pc (λ q. np (sym q)) in
      let pc2 : c2.registros.pc ≡ c1.registros.pc = j pc (λ q. np (sym q)) in
      let y1 : valor_de y c1.registros ≡ valor_de y c.registros = d y ne in
      let x2 : valor_de x (avanzar c2).registros ≡ valor_de x c2.registros =
        valor_de-avanzar c2 x np in
      (
        c1,
        avanzar c2,
        ciclo_ok true false c c1 inst i sum f p k a,
        ciclo_ok false false c1 c2 inst i sum (ap fetch pc1 ∙ f) p k g,
        x2 ∙ h ∙ omega arith,
        pc-avanzar c2 ∙ omega arith,
      )

  -- What the loop does after a round.
  abbrev tras_ciclo : (ℕ → Bool) → ℕ → ℕ → Resultado (Bool × Cpu) → Option (Resultado Cpu)
  tras_ciclo interrupcion fuel n (ok (interna, c)) =
      ejecutar_ciclos e fetch interrupcion fuel n interna c
  tras_ciclo interrupcion fuel n exit_failure = some exit_failure
  tras_ciclo interrupcion fuel n (falla f) = some (falla f)

  fin :
      (fuel n : ℕ) (interrupcion : ℕ → Bool) (interna : Bool) (c : Cpu)
      → (interna || interrupcion n) ≡ true
      → ejecutar_ciclos e fetch interrupcion (suc fuel) n interna c ≡ some (ok c)
  unfolding ejecutar_ciclos
  fin fuel n interrupcion interna c h = ground (arith, h)

  un_ciclo :
      (fuel n : ℕ) (interrupcion : ℕ → Bool) (interna : Bool) (c : Cpu) (r : Resultado (Bool × Cpu))
      → (interna || interrupcion n) ≡ false
      → ciclo e fetch (interrupcion (n + 1)) c ≡ r
      → ejecutar_ciclos e fetch interrupcion (suc fuel) n interna c
        ≡ tras_ciclo interrupcion fuel (n + 2) r
  unfolding ejecutar_ciclos
  un_ciclo fuel n interrupcion interna c (ok (b, c')) h x = ground (arith, h, x)
  un_ciclo fuel n interrupcion interna c exit_failure h x = ground (arith, h, x)
  un_ciclo fuel n interrupcion interna c (falla f) h x = ground (arith, h, x)

  -- A loop that ends after the next round ends.
  sigue :
      (fuel n : ℕ) (interrupcion : ℕ → Bool) (interna : Bool) (c : Cpu)
      → ((b : Bool) (c' : Cpu)
          → (r : Resultado Cpu) × (ejecutar_ciclos e fetch interrupcion fuel (n + 2) b c' ≡ some r))
      → (r : Resultado Cpu) × (ejecutar_ciclos e fetch interrupcion (suc fuel) n interna c ≡ some r)
  sigue fuel n interrupcion interna c ih = elim (Bool-cases (interna || interrupcion n)) [
    | inl h ↦ (ok c, fin fuel n interrupcion interna c h)
    | inr h ↦ caso h (ciclo e fetch (interrupcion (n + 1)) c) refl
  ]
    where
      caso :
          (interna || interrupcion n) ≡ false
          → (r : Resultado (Bool × Cpu)) → ciclo e fetch (interrupcion (n + 1)) c ≡ r
          → (r : Resultado Cpu) × (ejecutar_ciclos e fetch interrupcion (suc fuel) n interna c
              ≡ some r)
      caso h (ok (b, c')) x =
          let (r, y) = ih b c' in (r, un_ciclo fuel n interrupcion interna c (ok (b, c')) h x ∙ y)
      caso h exit_failure x =
          (exit_failure, un_ciclo fuel n interrupcion interna c exit_failure h x)
      caso h (falla f) x = (falla f, un_ciclo fuel n interrupcion interna c (falla f) h x)

  -- The loop ends once it reads the interruption flag as set at its condition: if that is so after
  -- `k` rounds at most, `k + 1` units of fuel are enough.
  pub ejecutar_ciclos_termina :
      (k fuel n : ℕ) (interrupcion : ℕ → Bool) (interna : Bool) (c : Cpu)
      → interrupcion (n + 2 * k) ≡ true
      → k < fuel
      → (r : Resultado Cpu) × (ejecutar_ciclos e fetch interrupcion fuel n interna c ≡ some r)
  ejecutar_ciclos_termina k zero n interrupcion interna c h lt = elim lt [ ]
  ejecutar_ciclos_termina zero (suc fuel) n interrupcion interna c h lt =
      let ya : interrupcion n ≡ true = ap interrupcion (omega arith) ∙ h in
      (ok c, fin fuel n interrupcion interna c (ground (arith, ya)))
  ejecutar_ciclos_termina (suc k) (suc fuel) n interrupcion interna c h lt =
      sigue fuel n interrupcion interna c (λ b c'.
        ejecutar_ciclos_termina k fuel (n + 2) interrupcion b c' (ap interrupcion (omega arith) ∙ h)
          (omega arith))
