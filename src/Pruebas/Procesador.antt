-- ===== src/Pruebas/Procesador.antt =====
-- The CPU: the theorems at small programs.
use so_tp_2c.Prelude.{
  ◌⊎◌, Bool, ℕ, ◌+◌, ◌*◌, ◌%◌, ◌^◌, ◌≡◌, ◌≢◌, refl, true, false, Option, some, List, [], arith,
  ◌==◌, if◌then◌else◌,
}
use so_tp_2c.Prelude.Resultado.{Resultado, ok}
use so_tp_2c.Comunes.Texto.{codes, texto_eq}
use so_tp_2c.Comunes.Texto.Palabras.{unir}
use so_tp_2c.Cpu.Registros.{Registros, pc, ax, bx, valor_de}
use so_tp_2c.Cpu.Instruccion.{
  Codigo, dump_memory, thread_create, Instruccion, inicializar_instruccion, obtener_instruccion,
  parsear_instruccion,
}
use so_tp_2c.Cpu.Instruccion.Sentencia.{
  Sentencia, asigna, salta, suma, vuelca_memoria, palabras, instruccion_de,
  parsear_instruccion-unir,
}
use so_tp_2c.Cpu.Ejecucion.{Cpu, Entorno, direccion, es_negativo, con_cabecera, execute_instruccion}
use so_tp_2c.Cpu.Ejecucion.Leyes.{es_llamada}
use so_tp_2c.Cpu.Ciclo.{ciclo, ejecutar_ciclos}
use so_tp_2c.Cpu.Ciclo.Leyes.{
  ciclo_interrumpido, ciclo_jnz, ciclo_suma_doble, ejecutar_ciclos_termina,
}

parsear_instruccion-unir_example :
    parsear_instruccion (unir (palabras (asigna ax 100))) ≡ instruccion_de (asigna ax 100)
parsear_instruccion-unir_example = parsear_instruccion-unir (asigna ax 100) (omega arith)

abbrev entorno : Entorno
entorno = record {
  leer_en_memoria = λ d. 77;
  escribir_en_memoria = λ d v. 0;
  proceso_en_ejecucion = 5;
  thread_en_ejecucion = 7;
  value_32_sin_valor = ok 0;
}

abbrev registros : Registros
registros = record {
  pc = 0;
  ax = 3;
  bx = 4;
  cx = 0;
  dx = 0;
  ex = 0;
  fx = 0;
  gx = 0;
  hx = 0;
  base = 16;
  limite = 32;
}

abbrev cpu : Cpu
cpu = record { registros = registros; retorno = [] }

abbrev de_ax_bx : Codigo → Instruccion
de_ax_bx k = record inicializar_instruccion {
  instruccion = k;
  registro1 = some ax;
  registro2 = some bx;
}

bx_no_ax : bx ≢ ax
bx_no_ax e = cc

ax_no_pc : ax ≢ pc
ax_no_pc e = cc

abbrev rechaza : Bool
rechaza = es_negativo (
    entorno.escribir_en_memoria (direccion entorno (valor_de ax cpu.registros))
      (valor_de bx cpu.registros))

es_thread_create : obtener_instruccion (codes "THREAD_CREATE") ≡ thread_create
unfolding obtener_instruccion texto_eq
es_thread_create = refl

abbrev programa : Sentencia → ℕ → Option (List ℕ)
programa s n = some (unir (palabras s))

parseada_salta : parsear_instruccion (unir (palabras (salta ax 9))) ≡ instruccion_de (salta ax 9)
parseada_salta = parsear_instruccion-unir (salta ax 9) (omega arith)

parseada_suma : parsear_instruccion (unir (palabras (suma ax bx))) ≡ instruccion_de (suma ax bx)
parseada_suma = parsear_instruccion-unir (suma ax bx) tt

parseada_vuelca :
    parsear_instruccion (unir (palabras vuelca_memoria)) ≡ instruccion_de vuelca_memoria
parseada_vuelca = parsear_instruccion-unir vuelca_memoria tt

ciclo_jnz_example :
    (c' : Cpu) × (ciclo entorno (programa (salta ax 9)) false cpu ≡ ok (false, c'))
    × (c'.registros.pc ≡ (
        if valor_de ax cpu.registros == 0
        then (cpu.registros.pc + 1) % 2 ^ 32
        else ((instruccion_de (salta ax 9)).valor + 1) % 2 ^ 32))
ciclo_jnz_example =
    ciclo_jnz entorno (programa (salta ax 9)) cpu (unir (palabras (salta ax 9)))
      (instruccion_de (salta ax 9)) ax refl parseada_salta refl refl

ciclo_suma_doble_example :
    (c' c'' : Cpu) × (ciclo entorno (programa (suma ax bx)) true cpu ≡ ok (false, c'))
    × (ciclo entorno (programa (suma ax bx)) false c' ≡ ok (false, c''))
    × (valor_de ax c''.registros
        ≡ (valor_de ax cpu.registros + 2 * valor_de bx cpu.registros) % 2 ^ 32)
    × (c''.registros.pc ≡ (cpu.registros.pc + 1) % 2 ^ 32)
ciclo_suma_doble_example =
    ciclo_suma_doble entorno (programa (suma ax bx)) cpu (unir (palabras (suma ax bx)))
      (instruccion_de (suma ax bx)) ax bx refl parseada_suma refl refl refl ax_no_pc bx_no_ax

abbrev tras_volcar : Cpu
tras_volcar = con_cabecera entorno dump_memory [] cpu

vuelca : ciclo entorno (programa vuelca_memoria) false cpu ≡ ok (true, tras_volcar)
unfolding ciclo execute_instruccion
vuelca = rw parseada_vuelca

ciclo_interrumpido_example :
    ((es_llamada (parsear_instruccion (unir (palabras vuelca_memoria))).instruccion ≡ false)
      ⊎ (true ≡ true))
    × ((true ≡ false) ⊎ (tras_volcar.registros ≡ cpu.registros))
ciclo_interrumpido_example =
    ciclo_interrumpido entorno (programa vuelca_memoria) false true cpu tras_volcar
      (unir (palabras vuelca_memoria)) refl vuelca

ejecutar_ciclos_termina_example :
    (r : Resultado Cpu) × (ejecutar_ciclos entorno
        (programa (suma ax bx))
        (λ n. n == 4)
        3
        0
        false
        cpu
      ≡ some r)
ejecutar_ciclos_termina_example =
    ejecutar_ciclos_termina entorno (programa (suma ax bx)) 2 3 0 (λ n. n == 4) false cpu refl
      (omega arith)
