-- ===== src/Memoria/Particiones/Dinamicas.antt =====
-- The searches over dynamic partitions: `first_fit_din`, `best_fit_din`, `worst_fit_din` of
-- memoria/src/manejar_kernel.c, which divide the partition that they choose.
use so_tp_2c.Prelude.{
  ℕ, zero, suc, ◌+◌, ◌≤◌, ◌<◌, ◌≡◌, ◌≢◌, refl, ap, ◌∙◌, ◌⊎◌, inl, inr, Option, none, some, List, [],
  ◌∷◌, ◌++◌, arith, length, get_elem?, set, ltb, Bool-cases, get_elem?-append_left, get_elem?-lt,
  length-set,
}
use so_tp_2c.Prelude.Resultado.{Resultado, ok}
use so_tp_2c.Commons.{ListaApi}
use so_tp_2c.Memoria.Particiones.{
  Particion, Busqueda, cabe, sobra_mas, ocupar, recortar, nueva_particion, indice, primera,
  dividir_elegida, first_fit_din, best_fit_din, worst_fit_din,
}
use so_tp_2c.Memoria.Particiones.Ajuste.{EsAjuste, recorrer-EsAjuste}
use so_tp_2c.Memoria.Particiones.Cobertura.{
  toca, cubre, cubre-append, cubre-set, libre, libre_total, libre_total-append, libre_total-set,
}
use so_tp_2c.Memoria.Particiones.Fijas.{
  Cabe, NoCabe, PrimerAjuste, MejorAjuste, PeorAjuste, menor-EsOrden, sobra_mas-EsOrden,
  MejorAjuste-Elegida, PeorAjuste-Elegida, NoCabe-none, cabe→Cabe, NoCabe-cons, PrimerAjuste-cons,
  not_Cabe,
}

-- The list `qs` is `ps` with the process placed at index `i`, in a partition of exactly its size at
-- the base of `p`: every address is covered as often as before, the free bytes fall by the size
-- of the process, and every other old partition is as it was.
pub record Asignada (tam_proceso : ℕ) (ps qs : List Particion) (i : ℕ) (p : Particion)
    : Type 0 where
  pub exacta : get_elem? qs i ≡ some (record { tamanio = tam_proceso; estado = 1; base = p.base })
  pub cobertura : (x : ℕ) → cubre x qs ≡ cubre x ps
  pub libres : libre_total qs + tam_proceso ≡ libre_total ps
  pub otras : (j : ℕ) → j ≢ i → j < length ps → get_elem? qs j ≡ get_elem? ps j

toca_division :
    (x t : ℕ) (p : Particion)
    → t ≤ p.tamanio
    → toca x (ocupar (recortar t p)) + toca x (nueva_particion t p) ≡ toca x p
unfolding toca
toca_division x t p h = ground arith

get_elem?-set_self :
    (ps : List Particion) (i : ℕ) (p q : Particion)
    → get_elem? ps i ≡ some p
    → get_elem? (set ps i q) i ≡ some q
get_elem?-set_self [] i p q e = ground arith
get_elem?-set_self (r ∷ ps) zero p q e = refl
get_elem?-set_self (r ∷ ps) (suc i) p q e = get_elem?-set_self ps i p q e

get_elem?-set_ne :
    (ps : List Particion) (i j : ℕ) (q : Particion)
    → j ≢ i
    → get_elem? (set ps i q) j ≡ get_elem? ps j
get_elem?-set_ne [] i j q h = refl
get_elem?-set_ne (r ∷ ps) zero zero q h = absurd (h refl)
get_elem?-set_ne (r ∷ ps) zero (suc j) q h = refl
get_elem?-set_ne (r ∷ ps) (suc i) zero q h = refl
get_elem?-set_ne (r ∷ ps) (suc i) (suc j) q h = get_elem?-set_ne ps i j q (λ e. h (ap suc e))

set-set_append :
    (ps : List Particion) (i : ℕ) (p q r n : Particion)
    → get_elem? ps i ≡ some p
    → set (set ps i q ++ (n ∷ [])) i r ≡ set ps i r ++ (n ∷ [])
set-set_append [] i p q r n e = ground arith
set-set_append (x ∷ ps) zero p q r n e = refl
set-set_append (x ∷ ps) (suc i) p q r n e = ap (◌∷◌ x) (set-set_append ps i p q r n e)

module _ (t : ℕ) (ps : List Particion) (i : ℕ) (p : Particion) (l : get_elem? ps i ≡ some p)
    (c : Cabe t p) where
  justa-Asignada : p.tamanio ≡ t → Asignada t ps (set ps i (ocupar p)) i p
  unfolding toca libre
  justa-Asignada e = record {
    exacta = get_elem?-set_self ps i p (ocupar p) l ∙ ground arith;
    cobertura = λ x. omega (arith, cubre-set x ps i p (ocupar p) l);
    libres = ground (arith, libre_total-set ps i p (ocupar p) l, c);
    otras = λ j ne _. get_elem?-set_ne ps i j (ocupar p) ne;
  }

  abbrev dividida : List Particion
  dividida = set ps i (ocupar (recortar t p)) ++ (nueva_particion t p ∷ [])

  dividida-Asignada : Asignada t ps dividida i p
  unfolding libre libre_total cubre
  dividida-Asignada = record {
    exacta =
        get_elem?-append_left (set ps i (ocupar (recortar t p))) _ i
          (omega (arith, length-set ps i (ocupar (recortar t p)), get_elem?-lt ps i l))
        ∙ get_elem?-set_self ps i p (ocupar (recortar t p)) l;
    cobertura = λ x. omega (
      arith,
      cubre-set x ps i p (ocupar (recortar t p)) l,
      cubre-append x (set ps i (ocupar (recortar t p))) (nueva_particion t p ∷ []),
      toca_division x t p c.entra,
    );
    libres = ground (
      arith,
      libre_total-set ps i p (ocupar (recortar t p)) l,
      libre_total-append (set ps i (ocupar (recortar t p))) (nueva_particion t p ∷ []),
      c,
    );
    otras = λ j ne lt.
        get_elem?-append_left (set ps i (ocupar (recortar t p))) _ j
          (omega (arith, length-set ps i (ocupar (recortar t p))))
        ∙ get_elem?-set_ne ps i j _ ne;
  }

-- The two outcomes of a search: NULL and the list as it was, if nothing has room; otherwise the
-- base of a partition that is right by `Ajuste`, and a list where the process has its place.
abbrev pub Coloca :
    ℕ → (List Particion → ℕ → Particion → Type 0) → List Particion → Resultado Busqueda → Type 0
Coloca tam_proceso Ajuste ps r =
    ((r ≡ ok (none, ps)) × NoCabe tam_proceso ps)
    ⊎ ((i : ℕ) × (p : Particion) × (qs : List Particion) × Ajuste ps i p
        × Asignada tam_proceso ps qs i p
        × (r ≡ ok (some p.base, qs)))

module _ (L : ListaApi Particion) where
  dividir_lem :
      (t : ℕ) (ps : List Particion) (i : ℕ) (p : Particion)
      → get_elem? ps i ≡ some p
      → Cabe t p
      → (qs : List Particion) × Asignada t ps qs i p
        × (dividir_elegida L t (some i) ps ≡ ok (some p.base, qs))
  unfolding dividir_elegida
  dividir_lem t ps i p l c = elim (Bool-cases (ltb t p.tamanio)) [
    | inl e ↦ (
      dividida t ps i p l c,
      dividida-Asignada t ps i p l c,
      ground (
        arith,
        L.list_get_reads ps i,
        L.list_add_appends (set ps i (recortar t p)) (nueva_particion t p),
        set-set_append ps i p (recortar t p) (ocupar (recortar t p)) (nueva_particion t p) l,
      ),
    )
    | inr e ↦ (
      set ps i (ocupar p),
      justa-Asignada t ps i p l c (ground (arith, c)),
      ground (arith, L.list_get_reads ps i),
    )
  ]

  dividir_elegida-Coloca :
      (t : ℕ) (Ajuste : List Particion → ℕ → Particion → Type 0) (ps : List Particion) (i : ℕ)
      (p : Particion)
      → get_elem? ps i ≡ some p
      → Cabe t p
      → Ajuste ps i p
      → Coloca t Ajuste ps (dividir_elegida L t (some i) ps)
  dividir_elegida-Coloca t Ajuste ps i p l c a =
      let (qs, v, r) = dividir_lem t ps i p l c in inr (i, p, qs, a, v, r)

  no_coloca : (t : ℕ) (ps : List Particion) → dividir_elegida L t none ps ≡ ok (none, ps)
  unfolding dividir_elegida
  no_coloca t ps = refl

  -- The two results of `primera`.
  abbrev Primera : ℕ → List Particion → ℕ → Option ℕ → Type 0
  Primera t ps k r =
      ((r ≡ none) × NoCabe t ps)
      ⊎ ((i : ℕ) × (p : Particion) × PrimerAjuste t ps i p × (r ≡ some (k + i)))

  primera_lem : (t : ℕ) (ps : List Particion) (k : ℕ) → Primera t ps k (primera t k ps)
  unfolding primera
  primera_lem t [] k = inl (refl, λ j q l. cc)
  primera_lem t (p ∷ ps) k = elim (Bool-cases (cabe t p)) [
    | inl e ↦ inr (
      0,
      p,
      record {
        leida = refl;
        cabida = cabe→Cabe t p e;
        es_primera = λ j q lt. absurd (omega arith);
      },
      rw e (ap some (omega arith)),
    )
    | inr e ↦ elim (primera_lem t ps (k + 1)) [
      | inl (r, h) ↦ inl (rw (e, r), NoCabe-cons t p ps (not_Cabe t p e) h)
      | inr (i, q, a, r) ↦ inr (
        suc i,
        q,
        PrimerAjuste-cons t p ps i q (not_Cabe t p e) a,
        rw (e, r) (ap some (omega arith)),
      )
    ]
  ]

  -- `first_fit_din` places a process in the first free partition with room, and cuts off the rest
  -- as a free partition; it returns NULL, and changes nothing, exactly when there is none. It never
  -- fails.
  pub first_fit_din_lem :
      (tam_proceso : ℕ) (ps : List Particion)
      → Coloca tam_proceso (PrimerAjuste tam_proceso) ps (first_fit_din L tam_proceso ps)
  unfolding first_fit_din
  first_fit_din_lem t ps = elim (primera_lem t ps 0) [
    | inl (r, h) ↦ inl (rw r (no_coloca t ps), h)
    | inr (i, p, a, r) ↦
        let e : primera t 0 ps ≡ some i = ground (arith, r) in
        rw e (dividir_elegida-Coloca t (PrimerAjuste t) ps i p a.leida a.cabida a)
  ]

  mejor_caso :
      (t : ℕ) (ps : List Particion) (a : Option (ℕ × ℕ))
      → EsAjuste (cabe t) ltb t ps a
      → Coloca t (MejorAjuste t) ps (dividir_elegida L t (indice a) ps)
  mejor_caso t ps none h = inl (no_coloca t ps, NoCabe-none t ps h)
  mejor_caso t ps (some (i, s)) v =
      let a = MejorAjuste-Elegida t ps i s v in
      dividir_elegida-Coloca t (MejorAjuste t) ps i v.p v.leida a.cabida a

  peor_caso :
      (t : ℕ) (ps : List Particion) (a : Option (ℕ × ℕ))
      → EsAjuste (cabe t) sobra_mas t ps a
      → Coloca t (PeorAjuste t) ps (dividir_elegida L t (indice a) ps)
  peor_caso t ps none h = inl (no_coloca t ps, NoCabe-none t ps h)
  peor_caso t ps (some (i, s)) v =
      let a = PeorAjuste-Elegida t ps i s v in
      dividir_elegida-Coloca t (PeorAjuste t) ps i v.p v.leida a.cabida a

  -- `best_fit_din` places a process in the smallest free partition with room, the first one of that
  -- size, and cuts off the rest as a free partition; it returns NULL, and changes nothing, exactly
  -- when there is none. It never fails.
  pub best_fit_din_lem :
      (tam_proceso : ℕ) (ps : List Particion)
      → Coloca tam_proceso (MejorAjuste tam_proceso) ps (best_fit_din L tam_proceso ps)
  unfolding best_fit_din
  best_fit_din_lem t ps =
      mejor_caso t ps _
        (recorrer-EsAjuste (cabe t) ltb t menor-EsOrden ps [] none 0 refl (λ j q l. cc))

  -- `worst_fit_din` places a process in the largest free partition with room, the first one of that
  -- size, and cuts off the rest as a free partition; it returns NULL, and changes nothing, exactly
  -- when there is none. It never fails.
  pub worst_fit_din_lem :
      (tam_proceso : ℕ) (ps : List Particion)
      → Coloca tam_proceso (PeorAjuste tam_proceso) ps (worst_fit_din L tam_proceso ps)
  unfolding worst_fit_din
  worst_fit_din_lem t ps =
      peor_caso t ps _
        (recorrer-EsAjuste (cabe t) sobra_mas t sobra_mas-EsOrden ps [] none 0 refl (λ j q l. cc))
