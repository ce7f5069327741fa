-- ===== src/Memoria/Particiones/Fijas.antt =====
-- The searches over fixed partitions: `first_fit`, `best_fit`, `worst_fit` of
-- memoria/src/manejar_kernel.c.
use so_tp_2c.Prelude.{
  ℕ, zero, suc, ◌≤◌, ◌<◌, ◌≡◌, refl, subst, ◌⊎◌, inl, inr, true, false, Option, none, some, List,
  [], ◌∷◌, arith, get_elem?, set, ltb, Bool-cases,
}
use so_tp_2c.Commons.{ListaApi}
use so_tp_2c.Prelude.Resultado.{ok}
use so_tp_2c.Memoria.Particiones.{
  Particion, Busqueda, cabe, cabe_holgada, sobra_mas, ocupar, first_fit, ocupar_elegida, best_fit,
  worst_fit,
}
use so_tp_2c.Memoria.Particiones.Ajuste.{EsOrden, Elegida, EsAjuste, recorrer-EsAjuste}

-- A free partition with room.
pub record Cabe (tam_proceso : ℕ) (p : Particion) : Type 0 where
  pub libre : p.estado ≡ 0
  pub entra : tam_proceso ≤ p.tamanio

pub cabe→Cabe : (tam_proceso : ℕ) (p : Particion) → cabe tam_proceso p ≡ true → Cabe tam_proceso p
cabe→Cabe t p h = ground arith

pub Cabe→cabe : (tam_proceso : ℕ) (p : Particion) → Cabe tam_proceso p → cabe tam_proceso p ≡ true
Cabe→cabe t p h = ground arith

-- No partition of the list is free with room.
abbrev pub NoCabe : ℕ → List Particion → Type 0
NoCabe tam_proceso ps = (j : ℕ) (q : Particion) → get_elem? ps j ≡ some q → ¬ Cabe tam_proceso q

-- The first partition with room.
pub record PrimerAjuste (tam_proceso : ℕ) (ps : List Particion) (i : ℕ) (p : Particion)
    : Type 0 where
  pub leida : get_elem? ps i ≡ some p
  pub cabida : Cabe tam_proceso p
  pub es_primera : (j : ℕ) (q : Particion) → j < i → get_elem? ps j ≡ some q → ¬ Cabe tam_proceso q

-- The smallest partition with room, and the first of that size.
pub record MejorAjuste (tam_proceso : ℕ) (ps : List Particion) (i : ℕ) (p : Particion)
    : Type 0 where
  pub leida : get_elem? ps i ≡ some p
  pub cabida : Cabe tam_proceso p
  pub minima :
      (j : ℕ) (q : Particion) → get_elem? ps j ≡ some q → Cabe tam_proceso q → p.tamanio ≤ q.tamanio
  pub es_primera :
      (j : ℕ) (q : Particion)
      → j < i
      → get_elem? ps j ≡ some q
      → Cabe tam_proceso q
      → p.tamanio < q.tamanio

-- The largest partition with room, and the first of that size.
pub record PeorAjuste (tam_proceso : ℕ) (ps : List Particion) (i : ℕ) (p : Particion) : Type 0 where
  pub leida : get_elem? ps i ≡ some p
  pub cabida : Cabe tam_proceso p
  pub maxima :
      (j : ℕ) (q : Particion) → get_elem? ps j ≡ some q → Cabe tam_proceso q → q.tamanio ≤ p.tamanio
  pub es_primera :
      (j : ℕ) (q : Particion)
      → j < i
      → get_elem? ps j ≡ some q
      → Cabe tam_proceso q
      → q.tamanio < p.tamanio

pub menor-EsOrden : EsOrden ltb
menor-EsOrden = record { asimetrica = λ a b h. ground arith; fuerte = λ a b c h k. ground arith }

pub sobra_mas-EsOrden : EsOrden sobra_mas
sobra_mas-EsOrden = record {
  asimetrica = λ a b h. ground arith;
  fuerte = λ a b c h k. ground arith;
}

-- From the loop's own tests to orders between sizes.
pub MejorAjuste-Elegida :
    (t : ℕ) (ps : List Particion) (i s : ℕ) (v : Elegida (cabe t) ltb t ps i s)
    → MejorAjuste t ps i v.p
MejorAjuste-Elegida t ps i s v = record {
  leida = v.leida;
  cabida = en;
  minima = λ j q l c. ground (arith, v.optima j q l (Cabe→cabe t q c), v.sobra, en);
  es_primera = λ j q lt l c. ground (arith, v.es_primera j q lt l (Cabe→cabe t q c), v.sobra, en);
}
  where
    en : Cabe t v.p
    en = cabe→Cabe t v.p v.es_apta

pub PeorAjuste-Elegida :
    (t : ℕ) (ps : List Particion) (i s : ℕ) (v : Elegida (cabe t) sobra_mas t ps i s)
    → PeorAjuste t ps i v.p
PeorAjuste-Elegida t ps i s v = record {
  leida = v.leida;
  cabida = en;
  maxima = λ j q l c. ground (arith, v.optima j q l (Cabe→cabe t q c), v.sobra, en);
  es_primera = λ j q lt l c. ground (arith, v.es_primera j q lt l (Cabe→cabe t q c), v.sobra, en);
}
  where
    en : Cabe t v.p
    en = cabe→Cabe t v.p v.es_apta

pub NoCabe-none :
    (t : ℕ) (ps : List Particion)
    → ((j : ℕ) (q : Particion) → get_elem? ps j ≡ some q → cabe t q ≡ false)
    → NoCabe t ps
NoCabe-none t ps h j q l c = ground (arith, h j q l, Cabe→cabe t q c)

some_eq : {p q : Particion} → some p ≡ some q → q ≡ p
some_eq h = cc

pub NoCabe-cons :
    (t : ℕ) (p : Particion) (ps : List Particion) → ¬ Cabe t p → NoCabe t ps → NoCabe t (p ∷ ps)
NoCabe-cons t p ps h k zero q l c = h (subst (Cabe t) (some_eq l) c)
NoCabe-cons t p ps h k (suc j) q l c = k j q l c

pub PrimerAjuste-cons :
    (t : ℕ) (p : Particion) (ps : List Particion) (i : ℕ) (q : Particion)
    → ¬ Cabe t p
    → PrimerAjuste t ps i q
    → PrimerAjuste t (p ∷ ps) (suc i) q
PrimerAjuste-cons t p ps i q h a = record { leida = a.leida; cabida = a.cabida; es_primera = antes }
  where
    antes : (j : ℕ) (r : Particion) → j < suc i → get_elem? (p ∷ ps) j ≡ some r → ¬ Cabe t r
    antes zero r lt l c = h (subst (Cabe t) (some_eq l) c)
    antes (suc j) r lt l c = a.es_primera j r (omega arith) l c

pub not_Cabe : (t : ℕ) (p : Particion) → cabe t p ≡ false → ¬ Cabe t p
not_Cabe t p e c = ground (arith, Cabe→cabe t p c)

-- The two outcomes of a search: NULL and the list as it was, if nothing has room; otherwise the
-- base of a partition that is right by `Ajuste`, which alone is marked as taken.
abbrev pub Encuentra :
    ℕ → (List Particion → ℕ → Particion → Type 0) → List Particion → Busqueda → Type 0
Encuentra tam_proceso Ajuste ps r =
    ((r ≡ (none, ps)) × NoCabe tam_proceso ps)
    ⊎ ((i : ℕ) × (p : Particion) × Ajuste ps i p × (r ≡ (some p.base, set ps i (ocupar p))))

-- `first_fit` takes the first free partition with room and no other; it returns NULL, and changes
-- nothing, exactly when there is none.
pub first_fit_lem :
    (tam_proceso : ℕ) (ps : List Particion)
    → Encuentra tam_proceso (PrimerAjuste tam_proceso) ps (first_fit tam_proceso ps)
unfolding first_fit
first_fit_lem t [] = inl (refl, λ j q l. cc)
first_fit_lem t (p ∷ ps) = elim (Bool-cases (cabe t p)) [
  | inl e ↦ inr (
    0,
    p,
    record { leida = refl; cabida = cabe→Cabe t p e; es_primera = λ j q lt. absurd (omega arith) },
    rw e,
  )
  | inr e ↦ elim (first_fit_lem t ps) [
    | inl (r, h) ↦ inl (rw (e, r), NoCabe-cons t p ps (not_Cabe t p e) h)
    | inr (i, q, a, r) ↦ inr (suc i, q, PrimerAjuste-cons t p ps i q (not_Cabe t p e) a, rw (e, r))
  ]
]

module _ (L : ListaApi Particion) where
  ocupar_elegida_lem :
      (ps : List Particion) (i s : ℕ) (p : Particion)
      → get_elem? ps i ≡ some p
      → ocupar_elegida L (some (i, s)) ps ≡ ok (some p.base, set ps i (ocupar p))
  unfolding ocupar_elegida
  ocupar_elegida_lem ps i s p e = ground (arith, L.list_get_reads ps i)

  ocupar_elegida-none : (ps : List Particion) → ocupar_elegida L none ps ≡ ok (none, ps)
  unfolding ocupar_elegida
  ocupar_elegida-none ps = refl

  mejor_caso :
      (t : ℕ) (ps : List Particion) (a : Option (ℕ × ℕ))
      → EsAjuste (cabe t) ltb t ps a
      → (r : Busqueda) × (ocupar_elegida L a ps ≡ ok r) × Encuentra t (MejorAjuste t) ps r
  mejor_caso t ps none h = ((none, ps), ocupar_elegida-none ps, inl (refl, NoCabe-none t ps h))
  mejor_caso t ps (some (i, s)) v = (
    (some v.p.base, set ps i (ocupar v.p)),
    ocupar_elegida_lem ps i s v.p v.leida,
    inr (i, v.p, MejorAjuste-Elegida t ps i s v, refl),
  )

  -- `best_fit` takes the smallest free partition with room, the first one of that size, and no
  -- other; it returns NULL, and changes nothing, exactly when there is none.
  pub best_fit_lem :
      (tam_proceso : ℕ) (ps : List Particion)
      → (r : Busqueda) × (best_fit L tam_proceso ps ≡ ok r)
        × Encuentra tam_proceso (MejorAjuste tam_proceso) ps r
  unfolding best_fit
  best_fit_lem t ps =
      mejor_caso t ps _
        (recorrer-EsAjuste (cabe t) ltb t menor-EsOrden ps [] none 0 refl (λ j q l. cc))

  -- The largest free partition that the strict test of `worst_fit` lets through.
  peor_caso :
      (t : ℕ) (ps : List Particion) (a : Option (ℕ × ℕ))
      → EsAjuste (cabe_holgada t) sobra_mas t ps a
      → (r : Busqueda) × (ocupar_elegida L a ps ≡ ok r)
        × Encuentra (suc t) (PeorAjuste (suc t)) ps r
  peor_caso t ps none h =
      ((none, ps), ocupar_elegida-none ps, inl (refl, λ j q l c. ground (arith, h j q l)))
  peor_caso t ps (some (i, s)) v = (
    (some v.p.base, set ps i (ocupar v.p)),
    ocupar_elegida_lem ps i s v.p v.leida,
    inr (
      i,
      v.p,
      record {
        leida = v.leida;
        cabida = en;
        maxima = λ j q l c. ground (arith, v.optima j q l (holgada q c), v.sobra, en);
        es_primera = λ j q lt l c. ground (arith, v.es_primera j q lt l (holgada q c), v.sobra, en);
      },
      refl,
    ),
  )
    where
      holgada : (q : Particion) → Cabe (suc t) q → cabe_holgada t q ≡ true
      holgada q c = ground arith

      en : Cabe (suc t) v.p
      en = ground (arith, v.es_apta)

  -- `worst_fit` takes the largest free partition that is bigger than the process by a byte or more,
  -- the first one of that size, and no other; it returns NULL, and changes nothing, exactly when
  -- every free partition is at most as big as the process.
  pub worst_fit_lem :
      (tam_proceso : ℕ) (ps : List Particion)
      → (r : Busqueda) × (worst_fit L tam_proceso ps ≡ ok r)
        × Encuentra (suc tam_proceso) (PeorAjuste (suc tam_proceso)) ps r
  unfolding worst_fit
  worst_fit_lem t ps = peor_caso t ps _ (
      recorrer-EsAjuste (cabe_holgada t) sobra_mas t sobra_mas-EsOrden ps [] none 0 refl
        (λ j q l. cc))
