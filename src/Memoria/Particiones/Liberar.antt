-- ===== src/Memoria/Particiones/Liberar.antt =====
-- `liberar_memoria` and `liberar_particion` of memoria/src/main.c. The only block is that of
-- `memoria_usuario`, at address 0; `viva` says that it is still allocated.
pub mod Fusion
use native.Mathlib.Numerals.{add-one}
use so_tp_2c.Prelude.{
  ℕ, zero, suc, ◌+◌, ◌-◌, ◌≤◌, ◌<◌, ◌≡◌, ◌≢◌, refl, ◌∙◌, sym, ap, inl, inr, ◌&&◌, Bool, true, false,
  Option, none, some, List, [], ◌∷◌, ◌++◌, arith, length, get_elem?, set, remove_at, ltb, leb, ◌==◌,
  if◌then◌else◌, Bool-cases, ◌⊎◌, length-set, get_elem?-lt,
}
use so_tp_2c.Prelude.Resultado.{
  Resultado, ok, falla, Falla, puntero_nulo, uso_tras_free, free_invalido, ◌>>=◌,
}
use so_tp_2c.Commons.{ListaApi}
use so_tp_2c.Memoria.Particiones.{Particion}
use so_tp_2c.Memoria.Particiones.Cobertura.{
  toca, cubre, cubre-set, libre, libre_total, libre_total-set,
}

abbrev pub desocupar : Particion → Particion
desocupar p = record p { estado = 0 }

-- `free(particion->base)`: the block may be freed by its own address, once.
unfoldable pub liberar_particion : Bool → Particion → Resultado Bool
liberar_particion viva p = if viva && p.base == 0 then ok false else falla free_invalido

-- The index of the first partition with the base.
unfoldable pub buscar_base : ℕ → ℕ → List Particion → Option ℕ
buscar_base base i [] = none
buscar_base base i (p ∷ ps) =
    let resto = buscar_base base (i + 1) ps in if p.base == base then some i else resto

-- What the loop keeps between its two merges: `viva`, the list, `i`, `cant_particiones`, and
-- whether the partition itself has been freed.
pub record Avance : Type 0 where
  pub viva : Bool
  pub lista : List Particion
  pub i : ℕ
  pub cant : ℕ
  pub destruida : Bool

module _ (L : ListaApi Particion) where
  open L use {list_get, list_remove}

  -- The merge into the previous entry of the list, if that is free.
  unfoldable pub fusionar_anterior : Bool → ℕ → ℕ → Particion → List Particion → Resultado Avance
  unfolding liberar_particion
  fusionar_anterior viva cant zero p ps =
      ok (record { viva = viva; lista = ps; i = 0; cant = cant; destruida = false })
  fusionar_anterior viva cant (suc k) p ps = elim (list_get ps k) [
    | none ↦ falla puntero_nulo
    | some anterior ↦
        if anterior.estado == 0
        then (do
          viva' ← liberar_particion viva p
          ok (record {
            viva = viva';
            lista =
                list_remove (set ps k (record anterior { tamanio = anterior.tamanio + p.tamanio }))
                  (suc k);
            i = k;
            cant = cant - 1;
            destruida = true;
          }))
        else ok (record { viva = viva; lista = ps; i = suc k; cant = cant; destruida = false })
  ]

  -- The merge of the next entry into the partition, if that is free.
  unfoldable pub fusionar_siguiente : Particion → Avance → Resultado (Bool × List Particion)
  unfolding liberar_particion
  fusionar_siguiente p a =
      if ltb a.i a.cant
      then (elim (list_get a.lista (a.i + 1)) [
        | none ↦ falla puntero_nulo
        | some siguiente ↦
            if siguiente.estado == 0
            then (if a.destruida then falla uso_tras_free else (do
              viva' ← liberar_particion a.viva siguiente
              ok (
                viva',
                list_remove
                    (set a.lista a.i
                      (record p { tamanio = p.tamanio + siguiente.tamanio; estado = 0 }))
                    (a.i + 1),
              )))
            else ok (a.viva, a.lista)
      ])
      else ok (a.viva, a.lista)

  unfoldable pub liberar_en :
      Bool → ℕ → Particion → List Particion → Resultado (Bool × List Particion)
  unfolding fusionar_anterior fusionar_siguiente
  liberar_en viva i p ps = do
    a ← fusionar_anterior viva (length ps) i p (set ps i (desocupar p))
    fusionar_siguiente p a

  unfoldable pub liberar_memoria : Bool → ℕ → List Particion → Resultado (Bool × List Particion)
  unfolding liberar_en
  liberar_memoria viva base ps = elim (buscar_base base 0 ps) [
    | none ↦ ok (viva, ps)
    | some i ↦ elim (list_get ps i) [ none ↦ falla puntero_nulo | some p ↦ liberar_en viva i p ps ]
  ]
