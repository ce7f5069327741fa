-- ===== src/Kernel/Hilos/Termina.antt =====
-- agregarHiloAReady, liberar_tcb and buscarDependiente of kernel/src call each other: each round of calls
-- takes a dependency out of lista_dependencias, so that the calls end.
use so_tp_2c.Prelude.{
  ℕ, zero, suc, ◌+◌, ◌≤◌, ◌<◌, ◌≡◌, sym, subst, ap, ◌∙◌, true, false, Bool-cases, Option-cases, inl,
  inr, Option, none, some, List, arith, length, ltb, ltb→lt, lt→ltb, ◌&&◌,
}
use so_tp_2c.Prelude.Resultado.{
  Resultado, ok, exit_failure, falla, puntero_nulo, Resultado-cases, ◌>>=◌,
}
use so_tp_2c.Commons.{CommonsApi}
use so_tp_2c.Comunes.Serializar.{Tcb}
use so_tp_2c.Kernel.Colas.Prioridad.{Algoritmo, cmn, fifo, prioridades, colas_multinivel}
use so_tp_2c.Kernel.Estado.{
  Puntero, Heap, Dependencia, cargar, guardar_en, creada, Hilos, estado_ready,
}
use so_tp_2c.Kernel.Hilos.{
  es_mismo, no_es_nulo, dependiente_en, insertar_en_cola_ready_cmn, tiene_dependiente,
  buscar_dependiente, liberar_tcb, agregar_a_cola, agregar_hilo_a_ready,
  quitar_tcb_de_lista_exec_hilo,
}
use so_tp_2c.Kernel.Hilos.Acaba.{
  contadas, dependencias, Acaba, por_igual, Acaba-ok, Acaba-falla, Acaba-exit, length-remove_at,
  cargar-falla, guardar_en-falla, insertar-Acaba, quitar-Acaba,
}

module _ (C : CommonsApi) where
  module _ (n : ℕ) (agregar : Hilos → Puntero → Resultado Hilos)
      (acaba : (h : Hilos) (p : Puntero)
        → dependencias h < n
        → Acaba (dependencias h) (agregar h p)) where
    abbrev soltado : Hilos → List Dependencia → ℕ → Heap Tcb → Hilos
    soltado h ds i m = record h {
      tcbs = m;
      lista_dependencias = some ((C.lista Dependencia).list_remove ds i);
    }

    module _ (v i : ℕ) (h : Hilos) (p : Puntero) (ds : List Dependencia) (d : Dependencia)
        (hd : h.lista_dependencias ≡ some ds) (hi : i < length ds)
        (hg : (C.lista Dependencia).list_get ds i ≡ some d) where
      otra-abierta :
          (es_mismo d.hilo p && no_es_nulo d.dependiente) ≡ false
          → buscar_dependiente C agregar (suc v) i h p ≡ buscar_dependiente C agregar v (suc i) h p
      unfolding buscar_dependiente creada
      otra-abierta hs =
          ground
            (arith, hd, hg, hs, lt→ltb i (length ds) hi, (C.lista Dependencia).list_size_counts ds)

      suya-abierta :
          (es_mismo d.hilo p && no_es_nulo d.dependiente) ≡ true
          → buscar_dependiente C agregar (suc v) i h p ≡ (do
            t ← cargar h.tcbs d.dependiente
            m ← guardar_en h.tcbs d.dependiente (record t { estado = estado_ready })
            l ← agregar (soltado h ds i m) d.dependiente
            buscar_dependiente C agregar v (suc i) l p)
      unfolding buscar_dependiente creada
      suya-abierta hs =
          ground
            (arith, hd, hg, hs, lt→ltb i (length ds) hi, (C.lista Dependencia).list_size_counts ds)

      menos : suc (length ((C.lista Dependencia).list_remove ds i)) ≡ length ds
      menos =
          ap (λ x. suc (length x)) ((C.lista Dependencia).list_remove_drops ds i)
          ∙ length-remove_at ds i hi

      -- One dependency is taken out, and the thread that waited is put into READY.
      suya-Acaba :
          length ds ≤ n
          → ((l : Hilos)
              → dependencias l < length ds
              → Acaba (dependencias l) (buscar_dependiente C agregar v (suc i) l p))
          → (es_mismo d.hilo p && no_es_nulo d.dependiente) ≡ true
          → Acaba (length ds) (buscar_dependiente C agregar (suc v) i h p)
      suya-Acaba hn sigue hs =
          let abierta = suya-abierta hs in
          elim (Resultado-cases (cargar h.tcbs d.dependiente)) [
            | inl (t, e1) ↦
                elim (Resultado-cases
                  (guardar_en h.tcbs d.dependiente (record t { estado = estado_ready }))) [
                    | inl (m, e2) ↦
                        let (a1, a2) =
                          acaba (soltado h ds i m) d.dependiente (omega (arith, menos, hn)) in
                        elim (Resultado-cases (agregar (soltado h ds i m) d.dependiente)) [
                          | inl (l, e3) ↦
                              let (b1, b2) = sigue l (omega (arith, a2 l e3, menos)) in
                              por_igual (buscar_dependiente C agregar v (suc i) l p)
                                (ground (arith, abierta, e1, e2, e3))
                                (b1, λ l' e'. omega (arith, b2 l' e', a2 l e3, menos))
                          | inr (inl e3) ↦
                              por_igual exit_failure (ground (arith, abierta, e1, e2, e3))
                                (Acaba-exit _)
                          | inr (inr (x, e3)) ↦
                              por_igual (falla x) (ground (arith, abierta, e1, e2, e3))
                                (Acaba-falla _ x (λ r. a1 (e3 ∙ ap falla r)))
                        ]
                    | inr (inl e2) ↦
                        por_igual exit_failure (ground (arith, abierta, e1, e2)) (Acaba-exit _)
                    | inr (inr (x, e2)) ↦
                        por_igual (falla x) (ground (arith, abierta, e1, e2))
                          (Acaba-falla _ x (guardar_en-falla h.tcbs d.dependiente _ x e2))
                  ]
            | inr (inl e1) ↦ por_igual exit_failure (ground (arith, abierta, e1)) (Acaba-exit _)
            | inr (inr (x, e1)) ↦
                por_igual (falla x) (ground (arith, abierta, e1))
                  (Acaba-falla _ x (cargar-falla h.tcbs d.dependiente x e1))
          ]

    -- The loop ends when it has a turn for each index left.
    buscar_dependiente-Acaba :
        (v i : ℕ) (h : Hilos) (p : Puntero)
        → dependencias h ≤ n
        → dependencias h ≤ v + i
        → Acaba (dependencias h) (buscar_dependiente C agregar v i h p)
    unfolding buscar_dependiente creada
    buscar_dependiente-Acaba zero i h p hn hv = elim (Option-cases h.lista_dependencias) [
      | inl e ↦
          por_igual (falla puntero_nulo) (ground (arith, e))
            (Acaba-falla _ _ (λ r. ground (arith, r)))
      | inr (ds, e) ↦
          por_igual (ok h) (ground (arith, e, hv, (C.lista Dependencia).list_size_counts ds))
            (Acaba-ok _ h (omega arith))
    ]
    buscar_dependiente-Acaba (suc v) i h p hn hv = elim (Option-cases h.lista_dependencias) [
      | inl e ↦
          por_igual (falla puntero_nulo) (ground (arith, e))
            (Acaba-falla _ _ (λ r. ground (arith, r)))
      | inr (ds, e) ↦
          let largo : dependencias h ≡ length ds = ground (arith, e) in
          elim (Bool-cases (ltb i (length ds))) [
            | inr f ↦
                por_igual (ok h) (ground (arith, e, f, (C.lista Dependencia).list_size_counts ds))
                  (Acaba-ok _ h (omega arith))
            | inl f ↦ elim (Option-cases ((C.lista Dependencia).list_get ds i)) [
              | inl g ↦
                  por_igual (falla puntero_nulo)
                    (ground (arith, e, f, g, (C.lista Dependencia).list_size_counts ds))
                    (Acaba-falla _ _ (λ r. ground (arith, r)))
              | inr (d, g) ↦ elim (Bool-cases (es_mismo d.hilo p && no_es_nulo d.dependiente)) [
                | inr s ↦
                    por_igual _ (otra-abierta v i h p ds d e (ltb→lt i (length ds) f) g s)
                      (buscar_dependiente-Acaba v (suc i) h p hn (omega (arith, hv)))
                | inl s ↦
                    subst (λ m. Acaba m (buscar_dependiente C agregar (suc v) i h p)) (sym largo)
                      (suya-Acaba v i h p ds d e (ltb→lt i (length ds) f) g
                        (omega (arith, hn, largo))
                        (λ l menor.
                          buscar_dependiente-Acaba v (suc i) l p (omega (arith, menor, hn, largo))
                            (omega (arith, menor, hv, largo)))
                        s)
              ]
            ]
          ]
    ]

    liberar-abierta :
        (h : Hilos) (i : ℕ) (ds : List Dependencia)
        → h.lista_dependencias ≡ some ds
        → dependiente_en C ds (some i) ≡ true
        → liberar_tcb C agregar h (some i) ≡ (do
          l ← buscar_dependiente C agregar (length ds) 0 h (some i)
          t ← cargar l.tcbs (some i)
          ps ← quitar_tcb_de_lista_exec_hilo C l.tcbs l.lista_bloq_hilo t.pid t.tid
          ok (record l { lista_bloq_hilo = some ps }))
    unfolding liberar_tcb tiene_dependiente creada
    liberar-abierta h i ds e s = ground (arith, e, s)

    liberar_tcb-Acaba :
        (h : Hilos) (p : Puntero)
        → dependencias h ≤ n
        → Acaba (dependencias h) (liberar_tcb C agregar h p)
    unfolding liberar_tcb tiene_dependiente creada
    liberar_tcb-Acaba h none hn = Acaba-ok _ h (omega arith)
    liberar_tcb-Acaba h (some i) hn = elim (Option-cases h.lista_dependencias) [
      | inl e ↦
          por_igual (falla puntero_nulo) (ground (arith, e))
            (Acaba-falla _ _ (λ r. ground (arith, r)))
      | inr (ds, e) ↦ elim (Bool-cases (dependiente_en C ds (some i))) [
        | inr s ↦ por_igual (ok h) (ground (arith, e, s)) (Acaba-ok _ h (omega arith))
        | inl s ↦
            let abierta = liberar-abierta h i ds e s in
            let (a1, a2) =
              buscar_dependiente-Acaba (length ds) 0 h (some i) hn (ground (arith, e)) in
            elim (Resultado-cases (buscar_dependiente C agregar (length ds) 0 h (some i))) [
              | inl (l, e1) ↦ elim (Resultado-cases (cargar l.tcbs (some i))) [
                | inl (t, e2) ↦
                    elim (Resultado-cases
                      (quitar_tcb_de_lista_exec_hilo C l.tcbs l.lista_bloq_hilo t.pid t.tid)) [
                        | inl (ps, e3) ↦
                            por_igual (ok (record l { lista_bloq_hilo = some ps }))
                              (ground (arith, abierta, e1, e2, e3))
                              (Acaba-ok _ (record l { lista_bloq_hilo = some ps }) (a2 l e1))
                        | inr (inl e3) ↦
                            por_igual exit_failure (ground (arith, abierta, e1, e2, e3))
                              (Acaba-exit _)
                        | inr (inr (x, e3)) ↦
                            por_igual (falla x) (ground (arith, abierta, e1, e2, e3)) (
                              Acaba-falla _ x (λ r.
                                quitar-Acaba C l.tcbs l.lista_bloq_hilo t.pid t.tid
                                  (e3 ∙ ap falla r)))
                      ]
                | inr (inl e2) ↦
                    por_igual exit_failure (ground (arith, abierta, e1, e2)) (Acaba-exit _)
                | inr (inr (x, e2)) ↦
                    por_igual (falla x) (ground (arith, abierta, e1, e2))
                      (Acaba-falla _ x (cargar-falla l.tcbs (some i) x e2))
              ]
              | inr (inl e1) ↦ por_igual exit_failure (ground (arith, abierta, e1)) (Acaba-exit _)
              | inr (inr (x, e1)) ↦
                  por_igual (falla x) (ground (arith, abierta, e1))
                    (Acaba-falla _ x (λ r. a1 (e1 ∙ ap falla r)))
            ]
      ]
    ]

  agregar_a_cola-Acaba : (h : Hilos) (p : Puntero) → Acaba (dependencias h) (agregar_a_cola C h p)
  unfolding agregar_a_cola creada
  agregar_a_cola-Acaba h p =
      (λ e. grind (arith, e, cargar-falla h.tcbs p), λ l e. ground (arith, e))

  -- A thread that has no place in the queues of the levels is let go.
  agregar-rechazado :
      (n : ℕ) (h l : Hilos) (p : Puntero)
      → insertar_en_cola_ready_cmn C h p ≡ ok (false, l)
      → agregar_hilo_a_ready C (some cmn) (suc n) h p
        ≡ liberar_tcb C (agregar_hilo_a_ready C (some cmn) n) l p
  unfolding agregar_hilo_a_ready
  agregar-rechazado n h l p e = ground (arith, e)

  -- With more fuel than there are dependencies, agregarHiloAReady does not run out of it, whatever the
  -- algorithm, the thread and the state: the calls of liberar_tcb and buscarDependiente inside it end.
  -- When it returns there are no more dependencies than before.
  pub agregar_hilo_a_ready-Acaba :
      (algoritmo : Option Algoritmo) (n : ℕ) (h : Hilos) (p : Puntero)
      → dependencias h < n
      → Acaba (dependencias h) (agregar_hilo_a_ready C algoritmo n h p)
  unfolding agregar_hilo_a_ready
  agregar_hilo_a_ready-Acaba algoritmo zero h p hn = ground (arith, hn)
  agregar_hilo_a_ready-Acaba (some fifo) (suc n) h p hn = agregar_a_cola-Acaba h p
  agregar_hilo_a_ready-Acaba (some prioridades) (suc n) h p hn = agregar_a_cola-Acaba h p
  agregar_hilo_a_ready-Acaba (some colas_multinivel) (suc n) h p hn = Acaba-ok _ h (omega arith)
  agregar_hilo_a_ready-Acaba none (suc n) h p hn = Acaba-ok _ h (omega arith)
  agregar_hilo_a_ready-Acaba (some cmn) (suc n) h p hn =
      let (a1, a2) = insertar-Acaba C h p in
      elim (Resultado-cases (insertar_en_cola_ready_cmn C h p)) [
        | inl ((true, l), e) ↦ elim (Resultado-cases (cargar l.tcbs p)) [
          | inl (t, e1) ↦
              por_igual (ok l) (ground (arith, e, e1))
                (Acaba-ok _ l (omega (arith, ap contadas (a2 true l e))))
          | inr (inl e1) ↦ por_igual exit_failure (ground (arith, e, e1)) (Acaba-exit _)
          | inr (inr (x, e1)) ↦
              por_igual (falla x) (ground (arith, e, e1))
                (Acaba-falla _ x (cargar-falla l.tcbs p x e1))
        ]
        | inl ((false, l), e) ↦
            let igual : dependencias l ≡ dependencias h = ap contadas (a2 false l e) in
            por_igual (liberar_tcb C (agregar_hilo_a_ready C (some cmn) n) l p)
              (agregar-rechazado n h l p e)
              (subst (λ m. Acaba m (liberar_tcb C (agregar_hilo_a_ready C (some cmn) n) l p)) igual
                (liberar_tcb-Acaba n (agregar_hilo_a_ready C (some cmn) n)
                  (λ h' p' menor. agregar_hilo_a_ready-Acaba (some cmn) n h' p' menor) l p
                  (omega (arith, hn, igual))))
        | inr (inl e) ↦ por_igual exit_failure (ground (arith, e)) (Acaba-exit _)
        | inr (inr (x, e)) ↦
            por_igual (falla x) (ground (arith, e)) (Acaba-falla _ x (λ r. a1 (e ∙ ap falla r)))
      ]
