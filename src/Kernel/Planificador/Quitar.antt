-- ===== src/Kernel/Planificador/Quitar.antt =====
-- queue_remove of kernel/src/k_corto_plazo.c on a queue that holds the thread.
use so_tp_2c.Prelude.{
  ℕ, ◌==◌, ◌&&◌, ◌≡◌, false, Bool-cases, inl, inr, none, some, List, [], ◌∷◌, ◌++◌, arith, length,
  append_assoc, append-nil, get_elem?, get_elem?-set, get_elem?-set_otro,
}
use so_tp_2c.Prelude.Resultado.{falla, uso_tras_free}
use so_tp_2c.Commons.{CommonsApi}
use so_tp_2c.Comunes.Serializar.{Tcb}
use so_tp_2c.Kernel.Estado.{Puntero, Heap, cargar, liberar}
use so_tp_2c.Kernel.Planificador.{apartar, queue_remove}

-- Every thread of the queue is live and differs from `t` in an identifier.
abbrev pub Otros : Heap Tcb → Tcb → List Puntero → Type 0
Otros m t [] = Unit
Otros m t (none ∷ ps) = ⊥
Otros m t (some j ∷ ps) =
    ((u : Tcb) × (get_elem? m j ≡ some (some u)) × (((u.pid == t.pid) && (u.tid == t.tid)) ≡ false))
    × Otros m t ps

module _ (C : CommonsApi) (m : Heap Tcb) (i : ℕ) (t : Tcb)
    (hi : get_elem? m i ≡ some (some t)) where
  apartar-Otros :
      (antes cola temp : List Puntero)
      → Otros m t antes
      → apartar C (some i) (length (antes ++ cola)) m (antes ++ cola) temp
        ≡ apartar C (some i) (length cola) m cola (temp ++ antes)
  unfolding apartar cargar
  apartar-Otros [] cola temp o = ground (arith, append-nil temp)
  apartar-Otros (none ∷ ps) cola temp o = elim o [ ]
  apartar-Otros (some j ∷ ps) cola temp ((u, hu, hn), o) = ground (
    arith,
    hi,
    hu,
    hn,
    (C.cola Puntero).pop_cons (some j) (ps ++ cola),
    (C.cola Puntero).push_appends temp (some j),
    apartar-Otros ps cola (temp ++ (some j ∷ [])) o,
    append_assoc temp (some j ∷ []) ps,
  )

  -- queue_remove of a live thread that stands in the queue, behind other live threads and before one
  -- more, frees the thread and then reads it again to compare the next one.
  pub queue_remove-presente :
      (antes despues : List Puntero) (j : ℕ) (u : Tcb)
      → Otros m t antes
      → get_elem? m j ≡ some (some u)
      → queue_remove C m (some (antes ++ (some i ∷ some j ∷ despues))) (some i)
        ≡ falla uso_tras_free
  unfolding queue_remove apartar cargar liberar
  queue_remove-presente antes despues j u o hj = elim (Bool-cases (i == j)) [
    | inl e ↦ ground (
      arith,
      e,
      hi,
      (C.cola Puntero).size_counts (antes ++ (some i ∷ some j ∷ despues)),
      (C.cola Puntero).create_empty,
      apartar-Otros antes (some i ∷ some j ∷ despues) [] o,
      (C.cola Puntero).pop_cons (some i) (some j ∷ despues),
      (C.cola Puntero).pop_cons (some j) despues,
      get_elem?-set m i none hi,
    )
    | inr e ↦ ground (
      arith,
      e,
      hi,
      hj,
      (C.cola Puntero).size_counts (antes ++ (some i ∷ some j ∷ despues)),
      (C.cola Puntero).create_empty,
      apartar-Otros antes (some i ∷ some j ∷ despues) [] o,
      (C.cola Puntero).pop_cons (some i) (some j ∷ despues),
      (C.cola Puntero).pop_cons (some j) despues,
      get_elem?-set m i none hi,
      get_elem?-set_otro m i j none (λ r. ground (arith, e, r)),
    )
  ]
