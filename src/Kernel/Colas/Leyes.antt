-- ===== src/Kernel/Colas/Leyes.antt =====
-- The searches of the kernel's queues against the same searches on a list.
use so_tp_2c.Prelude.{
  ℕ, suc, ◌+◌, ◌≡◌, ap, ◌∙◌, false, Bool-cases, inl, inr, arith, Option, none, some, List, [], ◌∷◌,
  ◌++◌, append_assoc, append-nil, length, length-append, ◌==◌, if◌then◌else◌,
}
use so_tp_2c.Prelude.Resultado.{ok}
use so_tp_2c.Commons.{ColaApi}
use so_tp_2c.Comunes.Serializar.{Tcb}
use so_tp_2c.Comunes.Serializar.Pcb.{Pcb}
use so_tp_2c.Kernel.Colas.{
  es_tcb_buscado, restaurar, separar, quitar_tcb_de_cola, mirar, buscar_tcb_de_cola, rotar,
  obtener_pcb_por_pid,
}

-- The first thread with the two identifiers.
abbrev pub primer_hilo : ℕ → ℕ → List Tcb → Option Tcb
primer_hilo pid tid [] = none
primer_hilo pid tid (t ∷ ts) = if es_tcb_buscado t pid tid then some t else primer_hilo pid tid ts

-- The queue without it.
abbrev pub sin_primer_hilo : ℕ → ℕ → List Tcb → List Tcb
sin_primer_hilo pid tid [] = []
sin_primer_hilo pid tid (t ∷ ts) =
    if es_tcb_buscado t pid tid then ts else t ∷ sin_primer_hilo pid tid ts

module _ (Q : ColaApi Tcb) where
  pub restaurar_lem :
      (cola auxiliar : List Tcb)
      → restaurar Q (length auxiliar) cola auxiliar ≡ some (cola ++ auxiliar)
  unfolding restaurar
  restaurar_lem cola [] = ground (arith, Q.is_empty_nil, append-nil cola)
  restaurar_lem cola (t ∷ ts) = ground (
    arith,
    Q.pop_cons t ts,
    Q.push_appends cola t,
    restaurar_lem (cola ++ (t ∷ [])) ts,
    append_assoc cola (t ∷ []) ts,
  )

  separar_hallado :
      (pid tid : ℕ) (cola auxiliar : List Tcb) (e : Tcb)
      → separar Q (length cola) pid tid (cola, (auxiliar, some e))
        ≡ some ([], (auxiliar ++ cola, some e))
  unfolding separar
  separar_hallado pid tid [] auxiliar e = ground (arith, Q.is_empty_nil, append-nil auxiliar)
  separar_hallado pid tid (t ∷ ts) auxiliar e = ground (
    arith,
    Q.pop_cons t ts,
    Q.push_appends auxiliar t,
    separar_hallado pid tid ts (auxiliar ++ (t ∷ [])) e,
    append_assoc auxiliar (t ∷ []) ts,
  )

  separar_lem :
      (pid tid : ℕ) (cola auxiliar : List Tcb)
      → separar Q (length cola) pid tid (cola, (auxiliar, none))
        ≡ some ([], (auxiliar ++ sin_primer_hilo pid tid cola, primer_hilo pid tid cola))
  unfolding separar
  separar_lem pid tid [] auxiliar = ground (arith, Q.is_empty_nil, append-nil auxiliar)
  separar_lem pid tid (t ∷ ts) auxiliar = elim (Bool-cases (es_tcb_buscado t pid tid)) [
    | inl e ↦ ground (arith, e, Q.pop_cons t ts, separar_hallado pid tid ts auxiliar t)
    | inr e ↦ ground (
      arith,
      e,
      Q.pop_cons t ts,
      Q.push_appends auxiliar t,
      separar_lem pid tid ts (auxiliar ++ (t ∷ [])),
      append_assoc auxiliar (t ∷ []) (sin_primer_hilo pid tid ts),
    )
  ]

  -- quitar_TCB_de_cola ends on every queue: it returns the first thread that has both identifiers, or
  -- NULL, and leaves the other threads in their order.
  pub quitar_tcb_de_cola_lem :
      (cola : List Tcb) (pid tid : ℕ)
      → quitar_tcb_de_cola Q cola pid tid
        ≡ some (primer_hilo pid tid cola, sin_primer_hilo pid tid cola)
  unfolding quitar_tcb_de_cola
  quitar_tcb_de_cola_lem cola pid tid = ground (
    arith,
    Q.create_empty,
    Q.size_counts cola,
    Q.size_counts (sin_primer_hilo pid tid cola),
    separar_lem pid tid cola [],
    restaurar_lem [] (sin_primer_hilo pid tid cola),
  )

  mirar_hallado :
      (pid tid : ℕ) (cola auxiliar : List Tcb) (e : Tcb)
      → mirar Q (length cola) pid tid (cola, (auxiliar, some e))
        ≡ some ([], (auxiliar ++ cola, some e))
  unfolding mirar
  mirar_hallado pid tid [] auxiliar e = ground (arith, Q.is_empty_nil, append-nil auxiliar)
  mirar_hallado pid tid (t ∷ ts) auxiliar e = ground (
    arith,
    Q.pop_cons t ts,
    Q.push_appends auxiliar t,
    mirar_hallado pid tid ts (auxiliar ++ (t ∷ [])) e,
    append_assoc auxiliar (t ∷ []) ts,
  )

  mirar_lem :
      (pid tid : ℕ) (cola auxiliar : List Tcb)
      → mirar Q (length cola) pid tid (cola, (auxiliar, none))
        ≡ some ([], (auxiliar ++ cola, primer_hilo pid tid cola))
  unfolding mirar
  mirar_lem pid tid [] auxiliar = ground (arith, Q.is_empty_nil, append-nil auxiliar)
  mirar_lem pid tid (t ∷ ts) auxiliar = elim (Bool-cases (es_tcb_buscado t pid tid)) [
    | inl e ↦ ground (
      arith,
      e,
      Q.pop_cons t ts,
      Q.push_appends auxiliar t,
      mirar_hallado pid tid ts (auxiliar ++ (t ∷ [])) t,
      append_assoc auxiliar (t ∷ []) ts,
    )
    | inr e ↦ ground (
      arith,
      e,
      Q.pop_cons t ts,
      Q.push_appends auxiliar t,
      mirar_lem pid tid ts (auxiliar ++ (t ∷ [])),
      append_assoc auxiliar (t ∷ []) ts,
    )
  ]

  -- buscarTCBDeCola ends on every queue: it returns the first thread that has both identifiers, or
  -- NULL, and leaves the queue as it was.
  pub buscar_tcb_de_cola_lem :
      (cola : List Tcb) (pid tid : ℕ)
      → buscar_tcb_de_cola Q cola pid tid ≡ some (primer_hilo pid tid cola, cola)
  unfolding buscar_tcb_de_cola
  buscar_tcb_de_cola_lem cola pid tid =
      ground (
        arith,
        Q.create_empty,
        Q.size_counts cola,
        mirar_lem pid tid cola [],
        restaurar_lem [] cola,
      )

-- No process of the list has the identifier.
abbrev pub SinPid : ℕ → List Pcb → Type 0
SinPid pid [] = Unit
SinPid pid (p ∷ ps) = ((p.pid == pid) ≡ false) × SinPid pid ps

module _ (Q : ColaApi Pcb) where
  rotar-otro :
      (pid n : ℕ) (p : Pcb) (ps : List Pcb)
      → (p.pid == pid) ≡ false
      → rotar Q (suc n) (p ∷ ps) pid ≡ rotar Q n (ps ++ (p ∷ [])) pid
  unfolding rotar
  rotar-otro pid n p ps h = ground (arith, h, Q.pop_cons p ps, Q.push_appends ps p)

  rotar-SinPid :
      (pid n : ℕ) (antes despues : List Pcb)
      → SinPid pid antes
      → rotar Q (length antes + n) (antes ++ despues) pid ≡ rotar Q n (despues ++ antes) pid
  rotar-SinPid pid n [] despues h = ground (arith, append-nil despues)
  rotar-SinPid pid n (p ∷ ps) despues (h, hs) =
      ap (λ k. rotar Q k (p ∷ (ps ++ despues)) pid) (omega arith)
      ∙ rotar-otro pid (length ps + n) p (ps ++ despues) h
      ∙ ap (λ xs. rotar Q (length ps + n) xs pid) (append_assoc ps despues (p ∷ []))
      ∙ rotar-SinPid pid n ps (despues ++ (p ∷ [])) hs
      ∙ ap (λ xs. rotar Q n xs pid) (append_assoc despues (p ∷ []) ps)

  -- When no process before `p` has the identifier of `p`, obtener_PCB_por_PID returns `p` and takes
  -- it out of the queue; those before it have passed behind the rest.
  pub obtener_pcb_por_pid_hallado :
      (p : Pcb) (antes despues : List Pcb)
      → SinPid p.pid antes
      → obtener_pcb_por_pid Q (antes ++ (p ∷ despues)) p.pid ≡ ok (some p, despues ++ antes)
  unfolding obtener_pcb_por_pid rotar
  obtener_pcb_por_pid_hallado p antes despues h = ground (
    arith,
    Q.size_counts (antes ++ (p ∷ despues)),
    length-append antes (p ∷ despues),
    rotar-SinPid p.pid (suc (length despues)) antes (p ∷ despues) h,
    Q.pop_cons p (despues ++ antes),
  )

  -- When no process has the identifier, obtener_PCB_por_PID returns NULL and the queue, turned once
  -- round, is as it was.
  pub obtener_pcb_por_pid_ausente :
      (pid : ℕ) (cola : List Pcb)
      → SinPid pid cola
      → obtener_pcb_por_pid Q cola pid ≡ ok (none, cola)
  unfolding obtener_pcb_por_pid rotar
  obtener_pcb_por_pid_ausente pid cola h =
      ground (arith, Q.size_counts cola, append-nil cola, rotar-SinPid pid 0 cola [] h)
