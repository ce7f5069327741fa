-- ===== src/Kernel/Hilos/Niveles.antt =====
-- The queues of the levels of priority as an abstract object: for each priority the threads that wait
-- there, oldest first.
use so_tp_2c.Prelude.{
  ℕ, ◌<◌, ◌≡◌, refl, sym, ap, ◌==◌, Bool, true, false, Bool-cases, inl, inr, Option, none, some,
  List, [], ◌∷◌, ◌++◌, arith, ltb, ltb→lt, get_elem?, set, get_elem?-set, get_elem?-set_otro,
  if◌then◌else◌,
}
use so_tp_2c.Prelude.Resultado.{ok}
use so_tp_2c.Commons.{CommonsApi}
use so_tp_2c.Comunes.Serializar.{Tcb}
use so_tp_2c.Kernel.Estado.{Puntero, cargar, creada, Hilos, max_niveles_prioridad}
use so_tp_2c.Kernel.Hilos.{push, insertar_en_cola_ready_cmn}
use so_tp_2c.Kernel.Hilos.Vida.{get_next_thread}

-- What an abstract object of queues offers: put behind, and take the first.
abbrev pub encolar : (ℕ → List Puntero) → ℕ → Puntero → ℕ → List Puntero
encolar v i p j = if i == j then v j ++ (p ∷ []) else v j

abbrev pub cabeza : List Puntero → Puntero
cabeza [] = none
cabeza (p ∷ ps) = p

abbrev pub cola_de : List Puntero → List Puntero
cola_de [] = []
cola_de (p ∷ ps) = ps

abbrev pub desencolar : (ℕ → List Puntero) → ℕ → ℕ → List Puntero
desencolar v i j = if i == j then cola_de (v j) else v j

abbrev pub nivel : Option (Option (List Puntero)) → List Puntero
nivel none = []
nivel (some none) = []
nivel (some (some cola)) = cola

-- The queues of a state as such an object.
abbrev pub vista : Hilos → ℕ → List Puntero
vista h i = nivel (get_elem? h.colas_ready_cmn i)

-- Every level has its queue.
abbrev pub Creadas : Hilos → Type 0
Creadas h =
    (i : ℕ) → i < max_niveles_prioridad → get_elem? h.colas_ready_cmn i ≡ some (some (vista h i))

module _ (h : Hilos) (i : ℕ) (cola : List Puntero) where
  abbrev puesta : Hilos
  puesta = record h { colas_ready_cmn = set h.colas_ready_cmn i (some cola) }

  puesta-aqui :
      i < max_niveles_prioridad → Creadas h → get_elem? puesta.colas_ready_cmn i ≡ some (some cola)
  puesta-aqui hi c = get_elem?-set h.colas_ready_cmn i (some cola) (c i hi)

  puesta-vista :
      i < max_niveles_prioridad
      → Creadas h
      → (j : ℕ) → vista puesta j ≡ (if i == j then cola else vista h j)
  puesta-vista hi c j = elim (Bool-cases (i == j)) [
    | inl e ↦ ground (arith, e, puesta-aqui hi c)
    | inr e ↦
        ground (
          arith,
          e,
          get_elem?-set_otro h.colas_ready_cmn i j (some cola) (λ r. ground (arith, e, r)),
        )
  ]

  puesta-Creadas : i < max_niveles_prioridad → Creadas h → Creadas puesta
  puesta-Creadas hi c j hj = elim (Bool-cases (i == j)) [
    | inl e ↦ ground (arith, e, puesta-aqui hi c)
    | inr e ↦ ground (
      arith,
      e,
      c j hj,
      get_elem?-set_otro h.colas_ready_cmn i j (some cola) (λ r. ground (arith, e, r)),
    )
  ]

module _ (C : CommonsApi) where
  -- When every level has its queue, insertar_en_cola_ready_cmn of a live thread with a priority below
  -- 100 returns true, puts the thread behind the others of its priority, as the abstract object does,
  -- and changes nothing else of the state; with a priority of 100 or more it returns false and the state
  -- is as it was. Every level still has its queue.
  pub insertar_en_cola_ready_cmn-encolar :
      (h : Hilos) (i : ℕ) (t : Tcb)
      → Creadas h
      → get_elem? h.tcbs i ≡ some (some t)
      → (b : Bool) × (l : Hilos) × (insertar_en_cola_ready_cmn C h (some i) ≡ ok (b, l))
        × (b ≡ ltb t.prioridad max_niveles_prioridad)
        × (l ≡ (
            if b
            then record h {
              colas_ready_cmn =
                  set h.colas_ready_cmn t.prioridad (some (vista h t.prioridad ++ (some i ∷ [])));
            }
            else h))
        × ((j : ℕ)
            → vista l j ≡ (if b then encolar (vista h) t.prioridad (some i) j else vista h j))
        × Creadas l
  unfolding insertar_en_cola_ready_cmn cargar
  insertar_en_cola_ready_cmn-encolar h i t c hi =
      elim (Bool-cases (ltb t.prioridad max_niveles_prioridad)) [
        | inl e ↦
            let menor = ltb→lt t.prioridad max_niveles_prioridad e in
            let cola = push C (vista h t.prioridad) (some i) in
            (
              true,
              puesta h t.prioridad cola,
              ground (arith, hi, e, c t.prioridad menor),
              sym e,
              ap (puesta h t.prioridad)
                  ((C.cola Puntero).push_appends (vista h t.prioridad) (some i)),
              λ j. elim (Bool-cases (t.prioridad == j)) [
                | inl r ↦ ground (
                  arith,
                  r,
                  puesta-vista h t.prioridad cola menor c j,
                  (C.cola Puntero).push_appends (vista h t.prioridad) (some i),
                )
                | inr r ↦ ground (arith, r, puesta-vista h t.prioridad cola menor c j)
              ],
              puesta-Creadas h t.prioridad cola menor c,
            )
        | inr e ↦ (false, h, ground (arith, hi, e), sym e, refl, λ j. refl, c)
      ]

  get_next_thread-cola :
      (h : Hilos) (i : ℕ) (cola : List Puntero)
      → Creadas h
      → i < max_niveles_prioridad
      → vista h i ≡ cola
      → (l : Hilos) × (get_next_thread C h i ≡ ok (cabeza cola, l))
        × ((j : ℕ) → vista l j ≡ desencolar (vista h) i j)
        × Creadas l
  unfolding get_next_thread creada
  get_next_thread-cola h i [] c hi e = (
    h,
    ground (arith, c i hi, e, (C.cola Puntero).is_empty_nil),
    λ j. elim (Bool-cases (i == j)) [ inl r ↦ ground (arith, r, e) | inr r ↦ ground (arith, r) ],
    c,
  )
  get_next_thread-cola h i (p ∷ ps) c hi e = (
    puesta h i ps,
    ground (arith, c i hi, e, (C.cola Puntero).is_empty_cons p ps, (C.cola Puntero).pop_cons p ps),
    λ j. elim (Bool-cases (i == j)) [
      | inl r ↦ ground (arith, r, e, puesta-vista h i ps hi c j)
      | inr r ↦ ground (arith, r, puesta-vista h i ps hi c j)
    ],
    puesta-Creadas h i ps hi c,
  )

  -- When every level has its queue, get_next_thread of a level below 100 returns the thread that waits
  -- longest there, or NULL when there is none, and takes it out as the abstract object does. Every level
  -- still has its queue.
  pub get_next_thread-desencolar :
      (h : Hilos) (i : ℕ)
      → Creadas h
      → i < max_niveles_prioridad
      → (l : Hilos) × (get_next_thread C h i ≡ ok (cabeza (vista h i), l))
        × ((j : ℕ) → vista l j ≡ desencolar (vista h) i j)
        × Creadas l
  get_next_thread-desencolar h i c hi = get_next_thread-cola h i (vista h i) c hi refl
