-- ===== src/Memoria/Procesos/Hilos.antt =====
-- Threads through the dictionaries of memoria/src: what is stored is found, and nothing else changes.
use so_tp_2c.Prelude.{
  ℕ, ◌^◌, ◌<◌, ◌≡◌, ◌≢◌, refl, sym, ◌∙◌, inl, inr, true, ◌==◌, none, some, List, arith,
  if◌then◌else◌, Bool-cases, Option-cases,
}
use so_tp_2c.Prelude.Resultado.{ok}
use so_tp_2c.Commons.{ListaApi, DictApi}
use so_tp_2c.Comunes.Texto.{snprintf_8}
use so_tp_2c.Comunes.Texto.Decimal.{itoa-injective, snprintf_8-itoa}
use so_tp_2c.Memoria.Particiones.{Particion}
use so_tp_2c.Memoria.Pseudocodigo.{Archivos, obtener_instrucciones}
use so_tp_2c.Memoria.Procesos.{
  Hilo, Proceso, Estado, inicializar_registros, get_proceso, get_hilo, crear_hilo, finalizar_hilo,
}

-- Distinct identifiers of up to seven digits have distinct keys.
pub claves_distintas : (i j : ℕ) → i < 10 ^ 7 → j < 10 ^ 7 → i ≢ j → ¬ (snprintf_8 i ≡ snprintf_8 j)
claves_distintas i j hi hj ne e =
    ne (itoa-injective i j (sym (snprintf_8-itoa i hi) ∙ e ∙ snprintf_8-itoa j hj))

module _ (H : DictApi Hilo) where
  -- A dictionary of threads, read after a write, at keys of up to seven digits.
  pub lee_puesto :
      (d : H.Dict) (i j : ℕ) (h : Hilo)
      → i < 10 ^ 7
      → j < 10 ^ 7
      → H.dictionary_get (H.dictionary_put d (snprintf_8 i) h) (snprintf_8 j)
        ≡ (if i == j then some h else H.dictionary_get d (snprintf_8 j))
  lee_puesto d i j h hi hj = elim (Bool-cases (i == j)) [
    | inl e ↦ let same : i ≡ j = ground arith in rw e (rw same (H.get_put_same d (snprintf_8 j) h))
    | inr e ↦ rw e (
        H.get_put_other d (snprintf_8 i) (snprintf_8 j) h
          (claves_distintas i j hi hj (ground arith)))
  ]

  pub lee_quitado :
      (d : H.Dict) (i j : ℕ)
      → i < 10 ^ 7
      → j < 10 ^ 7
      → H.dictionary_get (H.dictionary_remove d (snprintf_8 i)) (snprintf_8 j)
        ≡ (if i == j then none else H.dictionary_get d (snprintf_8 j))
  lee_quitado d i j hi hj = elim (Bool-cases (i == j)) [
    | inl e ↦ let same : i ≡ j = ground arith in rw e (rw same (H.get_remove_same d (snprintf_8 j)))
    | inr e ↦ rw e (
        H.get_remove_other d (snprintf_8 i) (snprintf_8 j)
          (claves_distintas i j hi hj (ground arith)))
  ]

-- A thread as `crear_hilo` makes it: its registers are zero.
abbrev pub hilo_nuevo : ℕ → ℕ → List ℕ → List (List ℕ) → Hilo
hilo_nuevo tid prioridad archivo instrucciones = record {
  tid = tid;
  prioridad = prioridad;
  registro = inicializar_registros;
  archivo_pseudocodigo = archivo;
  instrucciones = instrucciones;
}

module _ (H : DictApi Hilo) (P : DictApi (Proceso H.Dict)) (L : ListaApi Particion)
    (archivos : Archivos) where
  get_hilo_lem :
      (m : Estado P.Dict) (pid j : ℕ) (p : Proceso H.Dict)
      → P.dictionary_get m.procesos (snprintf_8 pid) ≡ some p
      → get_hilo H P L archivos m pid j ≡ ok (H.dictionary_get p.hilos (snprintf_8 j))
  unfolding get_hilo
  get_hilo_lem m pid j p e = ground (arith, e)

  -- The memory with the threads of a process replaced.
  abbrev con_hilos : Estado P.Dict → ℕ → Proceso H.Dict → H.Dict → Estado P.Dict
  con_hilos m pid p hilos = record m {
    procesos = P.dictionary_put m.procesos (snprintf_8 pid) (record p { hilos = hilos });
  }

  get_hilo-con_hilos :
      (m : Estado P.Dict) (pid j : ℕ) (p : Proceso H.Dict) (hs : H.Dict)
      → get_hilo H P L archivos (con_hilos m pid p hs) pid j
        ≡ ok (H.dictionary_get hs (snprintf_8 j))
  get_hilo-con_hilos m pid j p hs =
      get_hilo_lem (con_hilos m pid p hs) pid j (record p { hilos = hs }) (P.get_put_same _ _ _)

  crear_hilo_lem :
      (m : Estado P.Dict) (pid tid prioridad : ℕ) (archivo : List ℕ) (p : Proceso H.Dict)
      (is : List (List ℕ))
      → pid < 10 ^ 7
      → tid < 10 ^ 7
      → get_proceso H P L archivos m pid ≡ some p
      → obtener_instrucciones archivos archivo ≡ some is
      → crear_hilo H P L archivos m pid tid archivo prioridad ≡ (
        true,
        con_hilos m pid p
            (H.dictionary_put p.hilos (snprintf_8 tid) (hilo_nuevo tid prioridad archivo is)),
      )
  unfolding crear_hilo get_proceso
  crear_hilo_lem m pid tid prioridad archivo p is hp ht e f =
      ground (arith, snprintf_8-itoa pid hp, snprintf_8-itoa tid ht, e, f)

  finalizar_hilo_lem :
      (m : Estado P.Dict) (pid tid : ℕ) (p : Proceso H.Dict) (h : Hilo)
      → tid < 10 ^ 7
      → get_proceso H P L archivos m pid ≡ some p
      → H.dictionary_get p.hilos (snprintf_8 tid) ≡ some h
      → finalizar_hilo H P L archivos m pid tid
        ≡ ok (true, con_hilos m pid p (H.dictionary_remove p.hilos (snprintf_8 tid)))
  unfolding finalizar_hilo get_proceso
  finalizar_hilo_lem m pid tid p h ht e f = ground (arith, snprintf_8-itoa tid ht, e, f)

  -- In a process that exists, from a file that can be read, `crear_hilo` succeeds: afterwards the
  -- new thread, with its instructions and with zero registers, is found under its identifier, and
  -- each other thread of the process is as it was. Identifiers have up to seven digits.
  pub crear_hilo-get_hilo :
      (m : Estado P.Dict) (pid tid prioridad j : ℕ) (archivo : List ℕ) (p : Proceso H.Dict)
      (instrucciones : List (List ℕ))
      → pid < 10 ^ 7
      → tid < 10 ^ 7
      → j < 10 ^ 7
      → get_proceso H P L archivos m pid ≡ some p
      → obtener_instrucciones archivos archivo ≡ some instrucciones
      → ((crear_hilo H P L archivos m pid tid archivo prioridad).0 ≡ true)
        × (get_hilo H P L archivos (crear_hilo H P L archivos m pid tid archivo prioridad).1 pid j
            ≡ (if tid == j
                then ok (some (hilo_nuevo tid prioridad archivo instrucciones))
                else get_hilo H P L archivos m pid j))
  unfolding get_proceso
  crear_hilo-get_hilo m pid tid prioridad j archivo p is hp ht hj e f =
      rw (crear_hilo_lem m pid tid prioridad archivo p is hp ht e f) (
        refl,
        get_hilo-con_hilos m pid j p _
            ∙ ground (
              arith,
              get_hilo_lem m pid j p e,
              lee_puesto H p.hilos tid j (hilo_nuevo tid prioridad archivo is) ht hj,
            ),
      )

  -- Ending a thread that is found succeeds: afterwards it is not found, and each other thread of
  -- the process is as it was. Identifiers have up to seven digits.
  pub finalizar_hilo-get_hilo :
      (m : Estado P.Dict) (pid tid j : ℕ) (h : Hilo)
      → tid < 10 ^ 7
      → j < 10 ^ 7
      → get_hilo H P L archivos m pid tid ≡ ok (some h)
      → (m' : Estado P.Dict) × (finalizar_hilo H P L archivos m pid tid ≡ ok (true, m'))
        × (get_hilo H P L archivos m' pid j
            ≡ (if tid == j then ok none else get_hilo H P L archivos m pid j))
  finalizar_hilo-get_hilo m pid tid j h ht hj e =
      elim (Option-cases (get_proceso H P L archivos m pid)) [
        | inl n ↦ absurd (sin_proceso n)
        | inr (p, l) ↦
            let hay : H.dictionary_get p.hilos (snprintf_8 tid) ≡ some h = hallado p l in
            (
              con_hilos m pid p (H.dictionary_remove p.hilos (snprintf_8 tid)),
              finalizar_hilo_lem m pid tid p h ht l hay,
              get_hilo-con_hilos m pid j p _
                  ∙ ground (arith, lee p l, lee_quitado H p.hilos tid j ht hj),
            )
      ]
    where
      sin_proceso : get_proceso H P L archivos m pid ≡ none → ⊥
      sin_proceso n = unfold get_hilo get_proceso in ground (arith, e, n)

      lee :
          (p : Proceso H.Dict)
          → get_proceso H P L archivos m pid ≡ some p
          → get_hilo H P L archivos m pid j ≡ ok (H.dictionary_get p.hilos (snprintf_8 j))
      lee p l = unfold get_proceso in get_hilo_lem m pid j p l

      hallado :
          (p : Proceso H.Dict)
          → get_proceso H P L archivos m pid ≡ some p
          → H.dictionary_get p.hilos (snprintf_8 tid) ≡ some h
      hallado p l = unfold get_proceso in ground (arith, get_hilo_lem m pid tid p l, e)
