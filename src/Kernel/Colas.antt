-- ===== src/Kernel/Colas.antt =====
-- The searches in the kernel's queues of threads and processes: kernel/src/main.c and
-- kernel/src/k_corto_plazo.c. A queue is the list of the structures that it points to,
-- and is never NULL. A loop that
-- ends on `queue_is_empty` runs on fuel, the number of members at its start; `none` is fuel used up.
pub mod Leyes
pub mod Prioridad
use so_tp_2c.Prelude.{
  ℕ, zero, suc, ◌-◌, ◌+◌, ◌≡◌, Bool, true, false, not, ◌&&◌, Option, none, some, List, [], ◌∷◌,
  ◌++◌, length, ltb, ◌==◌, if◌then◌else◌,
}
use so_tp_2c.Prelude.Resultado.{Resultado, ok, falla, no_inicializado, puntero_nulo, ◌>>=◌}
use so_tp_2c.Commons.{ColaApi}
use so_tp_2c.Comunes.Serializar.{Tcb}
use so_tp_2c.Comunes.Serializar.Pcb.{Pcb}

-- `es_TCB_buscado`, `comparar_por_PID_y_TID` and, on the two fields of a TCB, `tcb_equals`
abbrev pub es_tcb_buscado : Tcb → ℕ → ℕ → Bool
es_tcb_buscado t pid tid = (t.pid == pid) && (t.tid == tid)

-- what the loops keep: the queue, the auxiliary queue and the thread found
abbrev pub Recorrida : Type 0
Recorrida = List Tcb × (List Tcb × Option Tcb)

module _ (Q : ColaApi Tcb) where
  -- `while (!queue_is_empty(cola_auxiliar)) queue_push(cola, queue_pop(cola_auxiliar));`
  unfoldable pub restaurar : ℕ → List Tcb → List Tcb → Option (List Tcb)
  restaurar zero cola auxiliar = if Q.queue_is_empty auxiliar then some cola else none
  restaurar (suc n) cola auxiliar =
      let (frente, auxiliar') = Q.queue_pop auxiliar in
      elim frente [ none ↦ some cola | some t ↦ restaurar n (Q.queue_push cola t) auxiliar' ]

  -- the first loop of `quitar_TCB_de_cola`
  unfoldable pub separar : ℕ → ℕ → ℕ → Recorrida → Option Recorrida
  separar zero pid tid (cola, (auxiliar, encontrado)) =
      if Q.queue_is_empty cola then some (cola, (auxiliar, encontrado)) else none
  separar (suc n) pid tid (cola, (auxiliar, encontrado)) =
      let (frente, cola') = Q.queue_pop cola in
      elim frente [
        | none ↦ some (cola, (auxiliar, encontrado))
        | some t ↦ elim encontrado [
          | some e ↦ separar n pid tid (cola', (Q.queue_push auxiliar t, some e))
          | none ↦ separar n pid tid (
              if es_tcb_buscado t pid tid
              then (cola', (auxiliar, some t))
              else (cola', (Q.queue_push auxiliar t, none)))
        ]
      ]

  -- the result, and the queue after the call
  unfoldable pub quitar_tcb_de_cola : List Tcb → ℕ → ℕ → Option (Option Tcb × List Tcb)
  unfolding separar restaurar
  quitar_tcb_de_cola cola pid tid =
      elim (separar (Q.queue_size cola) pid tid (cola, (Q.queue_create, none))) [
        | none ↦ none
        | some (cola', (auxiliar, encontrado)) ↦
            elim (restaurar (Q.queue_size auxiliar) cola' auxiliar) [
              | none ↦ none
              | some cola'' ↦ some (encontrado, cola'')
            ]
      ]

  -- the first loop of `buscarTCBDeCola`
  unfoldable pub mirar : ℕ → ℕ → ℕ → Recorrida → Option Recorrida
  mirar zero pid tid (cola, (auxiliar, encontrado)) =
      if Q.queue_is_empty cola then some (cola, (auxiliar, encontrado)) else none
  mirar (suc n) pid tid (cola, (auxiliar, encontrado)) =
      let (frente, cola') = Q.queue_pop cola in
      elim frente [
        | none ↦ some (cola, (auxiliar, encontrado))
        | some t ↦ elim encontrado [
          | some e ↦ mirar n pid tid (cola', (Q.queue_push auxiliar t, some e))
          | none ↦ mirar n pid tid (
              if es_tcb_buscado t pid tid
              then (cola', (Q.queue_push auxiliar t, some t))
              else (cola', (Q.queue_push auxiliar t, none)))
        ]
      ]

  unfoldable pub buscar_tcb_de_cola : List Tcb → ℕ → ℕ → Option (Option Tcb × List Tcb)
  unfolding mirar restaurar
  buscar_tcb_de_cola cola pid tid =
      elim (mirar (Q.queue_size cola) pid tid (cola, (Q.queue_create, none))) [
        | none ↦ none
        | some (cola', (auxiliar, encontrado)) ↦
            elim (restaurar (Q.queue_size auxiliar) cola' auxiliar) [
              | none ↦ none
              | some cola'' ↦ some (encontrado, cola'')
            ]
      ]

  -- the loop of `elegir_maxima_prioridad`, on how many turns are left; `inicio` stays false, so that
  -- only the pointer `elegido` of the turn before is compared. `none` is the pointer never set.
  unfoldable pub comparar_prioridades :
      ℕ → Option Tcb → List Tcb → Resultado (Option Tcb × List Tcb)
  comparar_prioridades zero elegido cola = ok (elegido, cola)
  comparar_prioridades (suc n) elegido cola =
      let (frente, cola') = Q.queue_pop cola in
      elim frente [
        | none ↦ falla puntero_nulo
        | some actual ↦ elim elegido [
          | none ↦ falla no_inicializado
          | some e ↦
              if ltb actual.prioridad e.prioridad
              then comparar_prioridades n (some e) (Q.queue_push cola' actual)
              else comparar_prioridades n (some actual) (Q.queue_push cola' e)
        ]
      ]

  -- the value returned is read by the caller at once
  unfoldable pub elegir_maxima_prioridad : List Tcb → Resultado (Tcb × List Tcb)
  unfolding comparar_prioridades
  elegir_maxima_prioridad cola = do
    (elegido, cola') ← comparar_prioridades (Q.queue_size cola - 1) none cola
    elim elegido [ some t ↦ ok (t, cola') | none ↦ falla no_inicializado ]

module _ (Q : ColaApi Pcb) where
  -- the loop of `obtener_PCB_por_PID`, on how many turns are left
  unfoldable pub rotar : ℕ → List Pcb → ℕ → Resultado (Option Pcb × List Pcb)
  rotar zero cola pid = ok (none, cola)
  rotar (suc n) cola pid =
      let (frente, cola') = Q.queue_pop cola in
      elim frente [
        | none ↦ falla puntero_nulo
        | some p ↦ if p.pid == pid then ok (some p, cola') else rotar n (Q.queue_push cola' p) pid
      ]

  unfoldable pub obtener_pcb_por_pid : List Pcb → ℕ → Resultado (Option Pcb × List Pcb)
  unfolding rotar
  obtener_pcb_por_pid cola pid = rotar (Q.queue_size cola) cola pid
