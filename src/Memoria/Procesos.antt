-- ===== src/Memoria/Procesos.antt =====
-- The processes and threads that the memory module keeps: `crear_proceso`, `crear_hilo`,
-- `finalizar_proceso`, `finalizar_hilo` of memoria/src/manejar_kernel.c, and `get_proceso`,
-- `get_hilo`, `liberar_proceso`, `liberar_hilo` of memoria/src/main.c. Identifiers are not negative.
-- A write through the pointer that a dictionary holds is a `dictionary_put` at the key it was
-- found by.
pub mod Hilos
pub mod Fallas
use so_tp_2c.Prelude.{
  ℕ, ◌≡◌, Bool, true, false, ◌&&◌, ◌==◌, Option, none, some, List, [], ◌∷◌, if◌then◌else◌,
}
use so_tp_2c.Prelude.Resultado.{Resultado, ok, falla, puntero_nulo, free_invalido, ◌>>=◌}
use so_tp_2c.Commons.{ListaApi, DictApi}
use so_tp_2c.Comunes.Texto.{itoa, snprintf_8}
use so_tp_2c.Memoria.Particiones.{Particion}
use so_tp_2c.Memoria.Particiones.Liberar.{liberar_memoria}
use so_tp_2c.Memoria.Pseudocodigo.{Archivos, obtener_instrucciones}

-- `t_registros_hilo`
pub record RegistrosHilo : Type 0 where
  pub ax : ℕ
  pub bx : ℕ
  pub cx : ℕ
  pub dx : ℕ
  pub ex : ℕ
  pub fx : ℕ
  pub gx : ℕ
  pub hx : ℕ
  pub pc : ℕ

-- `inicializar_registros`
abbrev pub inicializar_registros : RegistrosHilo
inicializar_registros = record {
  ax = 0;
  bx = 0;
  cx = 0;
  dx = 0;
  ex = 0;
  fx = 0;
  gx = 0;
  hx = 0;
  pc = 0;
}

-- `t_hilo`
pub record Hilo : Type 0 where
  pub tid : ℕ
  pub prioridad : ℕ
  pub registro : RegistrosHilo
  pub archivo_pseudocodigo : List ℕ
  pub instrucciones : List (List ℕ)

-- `t_proceso`, over the dictionary of its threads. The base is an address of user memory.
pub record Proceso (D : Type 0) : Type 0 where
  pub pid : ℕ
  pub base : ℕ
  pub limite : ℕ
  pub hilos : D
  pub archivo_pseudocodigo : List ℕ

-- The globals `procesos` and `lista_particiones`, and whether `memoria_usuario` is allocated.
pub record Estado (D : Type 0) : Type 0 where
  pub procesos : D
  pub viva : Bool
  pub particiones : List Particion

-- `asignar_memoria`, which is not finished: it returns NULL.
unfoldable pub asignar_memoria : ℕ → Option ℕ
asignar_memoria tam_proceso = none

-- `free(proceso->contexto.base)`
abbrev pub free_base : Bool → ℕ → Resultado Bool
free_base viva base = if viva && base == 0 then ok false else falla free_invalido

module _ (H : DictApi Hilo) (P : DictApi (Proceso H.Dict)) (L : ListaApi Particion)
    (archivos : Archivos) where
  abbrev pub Memoria : Type 0
  Memoria = Estado P.Dict

  unfoldable pub get_proceso : Memoria → ℕ → Option (Proceso H.Dict)
  get_proceso m pid = P.dictionary_get m.procesos (snprintf_8 pid)

  -- The process is not checked: without one, its threads are read through NULL.
  unfoldable pub get_hilo : Memoria → ℕ → ℕ → Resultado (Option Hilo)
  unfolding get_proceso
  get_hilo m pid tid = elim (get_proceso m pid) [
    | none ↦ falla puntero_nulo
    | some proceso ↦ ok (H.dictionary_get proceso.hilos (snprintf_8 tid))
  ]

  -- `hay_memoria` says whether `malloc` gave the record of the process.
  unfoldable pub crear_proceso : Bool → Memoria → ℕ → List ℕ → ℕ → Bool × Memoria
  unfolding asignar_memoria
  crear_proceso hay_memoria m pid archivo tam_proceso =
      if hay_memoria
      then (elim (asignar_memoria tam_proceso) [
        | none ↦ (false, m)
        | some base ↦ (
          true,
          record m {
            procesos = P.dictionary_put m.procesos (itoa pid) (record {
              pid = pid;
              base = base;
              limite = tam_proceso;
              hilos = H.dictionary_create;
              archivo_pseudocodigo = archivo;
            });
          },
        )
      ])
      else (false, m)

  unfoldable pub crear_hilo : Memoria → ℕ → ℕ → List ℕ → ℕ → Bool × Memoria
  crear_hilo m pid tid archivo prioridad = elim (P.dictionary_get m.procesos (itoa pid)) [
    | none ↦ (false, m)
    | some proceso ↦ elim (obtener_instrucciones archivos archivo) [
      | none ↦ (false, m)
      | some instrucciones ↦ (
        true,
        record m {
          procesos = P.dictionary_put m.procesos (itoa pid) (record proceso {
            hilos = H.dictionary_put proceso.hilos (itoa tid) (record {
              tid = tid;
              prioridad = prioridad;
              registro = inicializar_registros;
              archivo_pseudocodigo = archivo;
              instrucciones = instrucciones;
            });
          });
        },
      )
    ]
  ]

  -- Release of the process's partition, then of its base as a block of its own; the threads go
  -- with the process.
  unfoldable pub liberar_proceso : Memoria → Proceso H.Dict → Resultado Memoria
  liberar_proceso m proceso = do
    (viva, particiones) ← liberar_memoria L m.viva proceso.base m.particiones
    viva' ← free_base viva proceso.base
    ok (record m { viva = viva'; particiones = particiones })

  unfoldable pub finalizar_proceso : Memoria → ℕ → Resultado (Bool × Memoria)
  unfolding get_proceso liberar_proceso
  finalizar_proceso m pid = elim (get_proceso m pid) [
    | none ↦ ok (false, m)
    | some proceso ↦ do
      m' ← liberar_proceso m proceso
      ok (true, record m' { procesos = P.dictionary_remove m'.procesos (itoa pid) })
  ]

  -- Once the thread is found, so is its process, by the same key.
  unfoldable pub quitar_hilo : Memoria → ℕ → ℕ → Resultado (Bool × Memoria)
  unfolding get_proceso
  quitar_hilo m pid tid = elim (get_proceso m pid) [
    | none ↦ falla puntero_nulo
    | some proceso ↦ ok (
      true,
      record m {
        procesos =
            P.dictionary_put m.procesos (snprintf_8 pid)
              (record proceso { hilos = H.dictionary_remove proceso.hilos (itoa tid) });
      },
    )
  ]

  unfoldable pub finalizar_hilo : Memoria → ℕ → ℕ → Resultado (Bool × Memoria)
  unfolding get_hilo quitar_hilo
  finalizar_hilo m pid tid = do
    hilo ← get_hilo m pid tid
    elim hilo [ none ↦ ok (false, m) | some h ↦ quitar_hilo m pid tid ]
