-- ===== src/Memoria/Particiones/Liberar/Fusion.antt =====
-- What `liberar_memoria` does when there is nothing to merge, and when there is.
use native.Mathlib.Numerals.{add-one}
use so_tp_2c.Prelude.{
  ℕ, zero, suc, ◌+◌, ◌≤◌, ◌<◌, ◌≡◌, ◌≢◌, refl, ◌∙◌, inl, inr, Bool, false, none, some, List, [],
  ◌∷◌, arith, length, get_elem?, set, ◌==◌, Bool-cases, ◌⊎◌, get_elem?-lt,
}
use so_tp_2c.Prelude.Resultado.{ok, falla, Falla, puntero_nulo, free_invalido}
use so_tp_2c.Commons.{ListaApi}
use so_tp_2c.Memoria.Particiones.{Particion}
use so_tp_2c.Memoria.Particiones.Cobertura.{
  toca, cubre, cubre-set, libre, libre_total, libre_total-set,
}
use so_tp_2c.Memoria.Particiones.Liberar.{
  desocupar, buscar_base, Avance, fusionar_anterior, fusionar_siguiente, liberar_en,
  liberar_memoria,
}

-- The partition at an index has a taken neighbour after it, and none that is free before it.
pub record SinFusion (ps : List Particion) (i : ℕ) : Type 0 where
  pub siguiente : Particion
  pub hay_siguiente : get_elem? ps (i + 1) ≡ some siguiente
  pub ocupada_siguiente : siguiente.estado ≢ 0
  pub ocupada_anterior :
      (k : ℕ) (a : Particion) → i ≡ suc k → get_elem? ps k ≡ some a → a.estado ≢ 0

-- The partition at an index is the last, or one of its neighbours in the list is free.
pub data ConFusion (ps : List Particion) (i : ℕ) : Type 0 where
  ultima : i + 1 ≡ length ps → ConFusion ps i
  anterior_libre :
      (k : ℕ) (a : Particion) → i ≡ suc k → get_elem? ps k ≡ some a → a.estado ≡ 0 → ConFusion ps i
  siguiente_libre : (s : Particion) → get_elem? ps (i + 1) ≡ some s → s.estado ≡ 0 → ConFusion ps i

-- Only the first entry of the list stands at address 0.
abbrev pub UnaEnCero : List Particion → Type 0
UnaEnCero ps = (j : ℕ) (q : Particion) → get_elem? ps (suc j) ≡ some q → q.base ≢ 0

get_elem?-set_here :
    (ps : List Particion) (i : ℕ) (p q : Particion)
    → get_elem? ps i ≡ some p
    → get_elem? (set ps i q) i ≡ some q
get_elem?-set_here [] i p q e = ground arith
get_elem?-set_here (r ∷ ps) zero p q e = refl
get_elem?-set_here (r ∷ ps) (suc i) p q e = get_elem?-set_here ps i p q e

get_elem?-set-suc :
    (ps : List Particion) (i : ℕ) (q : Particion)
    → get_elem? (set ps i q) (suc i) ≡ get_elem? ps (suc i)
get_elem?-set-suc [] i q = refl
get_elem?-set-suc (r ∷ ps) zero q = refl
get_elem?-set-suc (r ∷ ps) (suc i) q = get_elem?-set-suc ps i q

get_elem?-set_pred :
    (ps : List Particion) (k : ℕ) (q : Particion) → get_elem? (set ps (suc k) q) k ≡ get_elem? ps k
get_elem?-set_pred [] k q = refl
get_elem?-set_pred (r ∷ ps) zero q = refl
get_elem?-set_pred (r ∷ ps) (suc k) q = get_elem?-set_pred ps k q

get_elem?-length : (ps : List Particion) (i : ℕ) → length ps ≤ i → get_elem? ps i ≡ none
get_elem?-length [] i h = refl
get_elem?-length (p ∷ ps) zero h = absurd (omega arith)
get_elem?-length (p ∷ ps) (suc i) h = get_elem?-length ps i (omega arith)

get_elem?-some :
    (ps : List Particion) (i : ℕ) → i < length ps → (p : Particion) × (get_elem? ps i ≡ some p)
get_elem?-some [] i h = elim h [ ]
get_elem?-some (p ∷ ps) zero h = (p, refl)
get_elem?-some (p ∷ ps) (suc i) h = get_elem?-some ps i (omega arith)

module _ (L : ListaApi Particion) (viva : Bool) (p : Particion) (ps : List Particion) where
  -- With no free entry before it, the first merge changes nothing.
  sin_anterior :
      (i : ℕ)
      → get_elem? ps i ≡ some p
      → ((k : ℕ) (a : Particion) → i ≡ suc k → get_elem? ps k ≡ some a → a.estado ≢ 0)
      → fusionar_anterior L viva (length ps) i p (set ps i (desocupar p))
        ≡ ok (record {
          viva = viva;
          lista = set ps i (desocupar p);
          i = i;
          cant = length ps;
          destruida = false;
        })
  unfolding fusionar_anterior
  sin_anterior zero l h = refl
  sin_anterior (suc k) l h =
      let (a, e) = get_elem?-some ps k (omega (arith, get_elem?-lt ps (suc k) l)) in
      ground (
        arith,
        h k a refl e,
        e,
        L.list_get_reads (set ps (suc k) (desocupar p)) k,
        get_elem?-set_pred ps k (desocupar p),
      )

  -- With a free entry before it, an address inside the block is freed.
  con_anterior :
      (k : ℕ) (a : Particion)
      → get_elem? ps k ≡ some a
      → a.estado ≡ 0
      → p.base ≢ 0
      → fusionar_anterior L viva (length ps) (suc k) p (set ps (suc k) (desocupar p))
        ≡ falla free_invalido
  unfolding fusionar_anterior
  con_anterior k a e f ne = ground (
    arith,
    e,
    f,
    L.list_get_reads (set ps (suc k) (desocupar p)) k,
    get_elem?-set_pred ps k (desocupar p),
  )

  module _ (i : ℕ) (l : get_elem? ps i ≡ some p) where
    abbrev quieto : Avance
    quieto = record {
      viva = viva;
      lista = set ps i (desocupar p);
      i = i;
      cant = length ps;
      destruida = false;
    }

    lee_siguiente : L.list_get (set ps i (desocupar p)) (i + 1) ≡ get_elem? ps (i + 1)
    lee_siguiente =
        L.list_get_reads (set ps i (desocupar p)) (i + 1)
        ∙ ground (arith, get_elem?-set-suc ps i (desocupar p))

    siguiente_ultima : i + 1 ≡ length ps → fusionar_siguiente L p quieto ≡ falla puntero_nulo
    unfolding fusionar_siguiente
    siguiente_ultima e = ground (arith, lee_siguiente, get_elem?-length ps (i + 1))

    siguiente_libre_falla :
        (s : Particion)
        → get_elem? ps (i + 1) ≡ some s
        → s.estado ≡ 0
        → s.base ≢ 0
        → fusionar_siguiente L p quieto ≡ falla free_invalido
    unfolding fusionar_siguiente
    siguiente_libre_falla s e f ne = ground (arith, lee_siguiente, get_elem?-lt ps i l)

    siguiente_ocupada :
        (s : Particion)
        → get_elem? ps (i + 1) ≡ some s
        → s.estado ≢ 0
        → fusionar_siguiente L p quieto ≡ ok (viva, set ps i (desocupar p))
    unfolding fusionar_siguiente
    siguiente_ocupada s e f = ground (arith, lee_siguiente, get_elem?-lt ps i l)

abbrev AnteriorLibre : List Particion → ℕ → Type 0
AnteriorLibre ps i =
    (k : ℕ) × (a : Particion) × (i ≡ suc k) × (get_elem? ps k ≡ some a) × (a.estado ≡ 0)

anterior_cases :
    (ps : List Particion) (i : ℕ)
    → i < length ps
    → AnteriorLibre ps i
      ⊎ ((k : ℕ) (a : Particion) → i ≡ suc k → get_elem? ps k ≡ some a → a.estado ≢ 0)
anterior_cases ps zero lt = inr (λ k a e. absurd (omega arith))
anterior_cases ps (suc k) lt =
    let (b, l) = get_elem?-some ps k (omega arith) in
    elim (Bool-cases (b.estado == 0)) [
      | inl e ↦ inl (k, b, refl, l, ground arith)
      | inr e ↦ inr (λ j a s m. let m' : get_elem? ps k ≡ some a = ground arith in ground arith)
    ]

module _ (L : ListaApi Particion) (viva : Bool) (base : ℕ) (ps : List Particion) (i : ℕ)
    (p : Particion) (hallada : buscar_base base 0 ps ≡ some i)
    (leida : get_elem? ps i ≡ some p) where
  liberar_memoria_en : liberar_memoria L viva base ps ≡ liberar_en L viva i p ps
  unfolding liberar_memoria
  liberar_memoria_en = ground (arith, L.list_get_reads ps i)

  liberar_en-quieto :
      ((k : ℕ) (a : Particion) → i ≡ suc k → get_elem? ps k ≡ some a → a.estado ≢ 0)
      → liberar_en L viva i p ps ≡ fusionar_siguiente L p (quieto L viva p ps i leida)
  unfolding liberar_en
  liberar_en-quieto h = ground (arith, sin_anterior L viva p ps i leida h)

  -- Freeing a partition whose neighbours in the list are both taken, and which is not the last,
  -- marks it as free and changes nothing else: every address is covered as often as before, and the
  -- free bytes grow by its size, if it was taken.
  pub liberar_memoria-SinFusion :
      SinFusion ps i
      → p.estado ≢ 0
      → (liberar_memoria L viva base ps ≡ ok (viva, set ps i (desocupar p)))
        × ((x : ℕ) → cubre x (set ps i (desocupar p)) ≡ cubre x ps)
        × (libre_total (set ps i (desocupar p)) ≡ libre_total ps + p.tamanio)
  unfolding toca libre
  liberar_memoria-SinFusion v taken = (
    liberar_memoria_en
        ∙ liberar_en-quieto v.ocupada_anterior
        ∙ siguiente_ocupada L viva p ps i leida v.siguiente v.hay_siguiente v.ocupada_siguiente,
    λ x. omega (arith, cubre-set x ps i p (desocupar p) leida),
    ground (arith, libre_total-set ps i p (desocupar p) leida),
  )

  falla_con_anterior :
      UnaEnCero ps → AnteriorLibre ps i → liberar_en L viva i p ps ≡ falla free_invalido
  unfolding liberar_en
  falla_con_anterior u (k, a, e, l, f) =
      let lp : get_elem? ps (suc k) ≡ some p = rw e at leida in
      rw e (ground (arith, con_anterior L viva p ps k a l f (u k p lp)))

  -- Freeing a partition that is the last of the list, or has a free neighbour in the list, fails,
  -- if only the first partition stands at address 0: a merge frees an address inside the block of
  -- `memoria_usuario`, and the entry after the last is NULL.
  pub liberar_memoria-ConFusion :
      UnaEnCero ps → ConFusion ps i → (f : Falla) × (liberar_memoria L viva base ps ≡ falla f)
  liberar_memoria-ConFusion u c = elim (anterior_cases ps i (get_elem?-lt ps i leida)) [
    | inl a ↦ (free_invalido, liberar_memoria_en ∙ falla_con_anterior u a)
    | inr h ↦ let (f, e) = segunda c h in (f, liberar_memoria_en ∙ liberar_en-quieto h ∙ e)
  ]
    where
      segunda :
          ConFusion ps i
          → ((k : ℕ) (a : Particion) → i ≡ suc k → get_elem? ps k ≡ some a → a.estado ≢ 0)
          → (f : Falla) × (fusionar_siguiente L p (quieto L viva p ps i leida) ≡ falla f)
      segunda (ultima e) h = (puntero_nulo, siguiente_ultima L viva p ps i leida e)
      segunda (anterior_libre k a e l f) h = absurd (h k a e l f)
      segunda (siguiente_libre s l f) h = (
        free_invalido,
        siguiente_libre_falla L viva p ps i leida s l f (u i s (rw (← add-one) l)),
      )
