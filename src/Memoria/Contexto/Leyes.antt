-- ===== src/Memoria/Contexto/Leyes.antt =====
-- The execution context of a thread, as the CPU stores it and reads it back.
use so_tp_2c.Prelude.{
  ℕ, ◌^◌, ◌<◌, ◌≡◌, ◌∙◌, inl, inr, true, ◌==◌, Option, none, some, List, arith, get_elem?,
  if◌then◌else◌, Option-cases,
}
use so_tp_2c.Prelude.Resultado.{Resultado, ok}
use so_tp_2c.Commons.{ListaApi, DictApi}
use so_tp_2c.Comunes.Texto.{snprintf_8}
use so_tp_2c.Memoria.Pseudocodigo.{Archivos}
use so_tp_2c.Memoria.Particiones.{Particion}
use so_tp_2c.Memoria.Pseudocodigo.Lineas.{Lineas, unir, no_vacias, obtener_instrucciones-unir}
use so_tp_2c.Memoria.Procesos.{Hilo, Proceso, Estado, get_proceso, get_hilo, crear_hilo}
use so_tp_2c.Memoria.Procesos.Hilos.{lee_puesto, crear_hilo-get_hilo}
use so_tp_2c.Memoria.Contexto.{
  ContextoCpu, obtener_instruccion_numero, obtener_contexto, actualizar_contexto,
}

module _ (H : DictApi Hilo) (P : DictApi (Proceso H.Dict)) (L : ListaApi Particion)
    (I : ListaApi (List ℕ)) (archivos : Archivos) (strdup : ℕ → List ℕ) where
  -- The context that a thread of a process has.
  abbrev pub contexto_de : Proceso H.Dict → Hilo → ContextoCpu
  contexto_de p h = record { base = strdup p.base; limite = p.limite; registros = h.registro }

  abbrev lectura : Proceso H.Dict → Option Hilo → Resultado (Option ContextoCpu)
  lectura p none = ok none
  lectura p (some h) = ok (some (contexto_de p h))

  obtener_contexto_lem :
      (m : Estado P.Dict) (pid j : ℕ) (p : Proceso H.Dict)
      → P.dictionary_get m.procesos (snprintf_8 pid) ≡ some p
      → obtener_contexto H P L I archivos strdup m pid j
        ≡ lectura p (H.dictionary_get p.hilos (snprintf_8 j))
  unfolding obtener_contexto
  obtener_contexto_lem m pid j p e = elim (Option-cases (H.dictionary_get p.hilos (snprintf_8 j))) [
    | inl n ↦ ground (arith, e, n)
    | inr (h, s) ↦ ground (arith, e, s)
  ]

  -- Storing a context for a thread that is found succeeds: reading it back gives the registers that
  -- were stored, with the base and the limit that the process had, and reading any other thread of
  -- the process gives what it gave before. Thread identifiers have up to seven digits.
  pub actualizar-obtener_contexto :
      (m : Estado P.Dict) (pid tid j : ℕ) (c : ContextoCpu) (p : Proceso H.Dict) (h : Hilo)
      → tid < 10 ^ 7
      → j < 10 ^ 7
      → get_proceso H P L archivos m pid ≡ some p
      → get_hilo H P L archivos m pid tid ≡ ok (some h)
      → (m' : Estado P.Dict) × (actualizar_contexto H P L I archivos strdup m pid tid c
          ≡ ok (true, m'))
        × (obtener_contexto H P L I archivos strdup m' pid j ≡ (
            if tid == j
            then ok
                (some (record { base = strdup p.base; limite = p.limite; registros = c.registros }))
            else obtener_contexto H P L I archivos strdup m pid j))
  unfolding actualizar_contexto
  actualizar-obtener_contexto m pid tid j c p h ht hj e f = (
    record m { procesos = P.dictionary_put m.procesos (snprintf_8 pid) p2 },
    ground (arith, e, f),
    obtener_contexto_lem (record m { procesos = P.dictionary_put m.procesos (snprintf_8 pid) p2 })
          pid j p2 (P.get_put_same _ _ _)
        ∙ ground (arith, obtener_contexto_lem m pid j p e, lee_puesto H p.hilos tid j h2 ht hj),
  )
    where
      h2 : Hilo
      h2 = record h { registro = c.registros }

      p2 : Proceso H.Dict
      p2 = record p { hilos = H.dictionary_put p.hilos (snprintf_8 tid) h2 }

  -- A thread created from a file of lines of up to 254 characters: obtener_instruccion_numero of a
  -- program counter gives the line of that number, empty lines not counted, or NULL if there is no such
  -- line. Identifiers have up to seven digits, and strdup copies each line.
  pub crear_hilo-obtener_instruccion :
      (m : Estado P.Dict) (pid tid prioridad pc : ℕ) (archivo : List ℕ) (p : Proceso H.Dict)
      (ls : List (List ℕ))
      → pid < 10 ^ 7
      → tid < 10 ^ 7
      → get_proceso H P L archivos m pid ≡ some p
      → Lineas ls
      → archivos.fopen archivo ≡ some (unir ls)
      → ((linea : List ℕ) → archivos.strdup linea ≡ some linea)
      → obtener_instruccion_numero H P L I archivos strdup
          (crear_hilo H P L archivos m pid tid archivo prioridad).1
          pid
          tid
          pc
        ≡ ok (get_elem? (no_vacias ls) pc)
  unfolding obtener_instruccion_numero
  crear_hilo-obtener_instruccion m pid tid prioridad pc archivo p ls hp ht e v f g =
      let leido =
        (crear_hilo-get_hilo H P L archivos m pid tid prioridad tid archivo p (no_vacias ls) hp ht
          ht e (obtener_instrucciones-unir archivos archivo ls v f g)).1 in
      ground (arith, leido, I.list_get_reads (no_vacias ls) pc)
