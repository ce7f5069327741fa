-- ===== src/Cpu/Ciclo.antt =====
-- The instruction cycle: `EjecutarProceso` of cpu/src/cpu.c.
pub mod Leyes
use so_tp_2c.Prelude.{
  ℕ, zero, suc, ◌+◌, ◌%◌, ◌^◌, Bool, true, false, ◌||◌, Option, none, some, List, [], if◌then◌else◌,
}
use so_tp_2c.Prelude.Resultado.{Resultado, ok, exit_failure, falla, Falla, puntero_nulo, ◌>>=◌}
use so_tp_2c.Cpu.Registros.{Registros, pc, guardar}
use so_tp_2c.Cpu.Instruccion.{Instruccion, parsear_instruccion}
use so_tp_2c.Cpu.Ejecucion.{Cpu, Entorno, execute_instruccion}

-- `registros->PC++`
abbrev pub avanzar : Cpu → Cpu
avanzar c = record c { registros = guardar pc ((c.registros.pc + 1) % 2 ^ 32) c.registros }

module _ (e : Entorno) (fetch : ℕ → Option (List ℕ)) where
  -- One round: fetch, decode, execute, and the program counter unless the cycle is interrupted.
  -- `recibida` is `*interrupcionRecibida` as read after the execution. `none` of `fetch` is NULL,
  -- which `strtok` reads through.
  unfoldable pub ciclo : Bool → Cpu → Resultado (Bool × Cpu)
  ciclo recibida c = elim (fetch c.registros.pc) [
    | none ↦ falla puntero_nulo
    | some inst ↦ do
      let i = parsear_instruccion inst
      (interna, c') ← execute_instruccion e i i.instruccion c
      if interna || recibida then ok (interna, c') else ok (interna, avanzar c')
  ]

  -- The loop. `interrupcion n` is the flag as read the `n`-th time: twice a round, first by the
  -- condition of the loop. `none`: the fuel ran out.
  unfoldable pub ejecutar_ciclos : (ℕ → Bool) → ℕ → ℕ → Bool → Cpu → Option (Resultado Cpu)
  unfolding ciclo
  ejecutar_ciclos interrupcion zero n interna c = none
  ejecutar_ciclos interrupcion (suc fuel) n interna c = elim (interna || interrupcion n) [
    | true ↦ some (ok c)
    | false ↦ elim (ciclo (interrupcion (n + 1)) c) [
      | ok (interna', c') ↦ ejecutar_ciclos interrupcion fuel (n + 2) interna' c'
      | exit_failure ↦ some exit_failure
      | falla f ↦ some (falla f)
    ]
  ]

  unfoldable pub ejecutar_proceso : (ℕ → Bool) → ℕ → Registros → Option (Resultado Cpu)
  unfolding ejecutar_ciclos
  ejecutar_proceso interrupcion fuel r =
      ejecutar_ciclos interrupcion fuel 0 false (record { registros = r; retorno = [] })
