-- ===== src/Pruebas/Particiones.antt =====
-- The partitions of the memory module: tests, and the theorems at three partitions.
use Prim.Native.String.{String}
use so_tp_2c.Prelude.{
  ℕ, zero, suc, true, ◌+◌, ◌≡◌, ◌≢◌, refl, none, some, List, [], ◌∷◌, arith, get_elem?, set,
}
use so_tp_2c.Prelude.Resultado.{ok}
use so_tp_2c.Commons.{ListaApi, lista_api}
use so_tp_2c.Memoria.Particiones.{
  Busqueda, Particion, ocupar_elegida, recorrer, best_fit, worst_fit, first_fit_din, best_fit_din,
}
use so_tp_2c.Memoria.Particiones.Fijas.{PrimerAjuste, MejorAjuste, Encuentra, best_fit_lem}
use so_tp_2c.Memoria.Particiones.Cobertura.{cubre, libre_total}
use so_tp_2c.Memoria.Particiones.Dinamicas.{Coloca, first_fit_din_lem, best_fit_din_lem}
use so_tp_2c.Memoria.Particiones.Inicio.{particion_libre}
use so_tp_2c.Memoria.Particiones.Liberar.{desocupar, buscar_base, liberar_memoria}
use so_tp_2c.Memoria.Particiones.Liberar.Fusion.{SinFusion, UnaEnCero, liberar_memoria-SinFusion}

abbrev L : ListaApi Particion
L = lista_api Particion

abbrev ocupada : ℕ → ℕ → Particion
ocupada tamanio base = record { tamanio = tamanio; estado = 1; base = base }

abbrev libres : List Particion
libres = particion_libre 10 0 ∷ particion_libre 20 10 ∷ particion_libre 30 30 ∷ []

abbrev ocupadas : List Particion
ocupadas = ocupada 10 0 ∷ ocupada 20 10 ∷ ocupada 30 30 ∷ []

best_fit_prueba : (r : Busqueda) × (best_fit L 15 libres ≡ ok r) × (r.0 ≡ some 10)
unfolding best_fit recorrer ocupar_elegida
best_fit_prueba = (_, refl, refl)

worst_fit_prueba : (r : Busqueda) × (worst_fit L 30 libres ≡ ok r) × (r.0 ≡ none)
unfolding worst_fit recorrer ocupar_elegida
worst_fit_prueba = (_, refl, refl)

best_fit_lem_example :
    (r : Busqueda) × (best_fit L 15 libres ≡ ok r) × Encuentra 15 (MejorAjuste 15) libres r
best_fit_lem_example = best_fit_lem L 15 libres

first_fit_din_lem_example : Coloca 15 (PrimerAjuste 15) libres (first_fit_din L 15 libres)
first_fit_din_lem_example = first_fit_din_lem L 15 libres

best_fit_din_lem_example : Coloca 15 (MejorAjuste 15) libres (best_fit_din L 15 libres)
best_fit_din_lem_example = best_fit_din_lem L 15 libres

abbrev tamanios : List ℕ
tamanios = 10 ∷ 20 ∷ []

abbrev dinamicas : String
dinamicas = "DINAMICAS"

hallada_diez : buscar_base 10 0 ocupadas ≡ some 1
unfolding buscar_base
hallada_diez = refl

hallada_treinta : buscar_base 30 0 ocupadas ≡ some 2
unfolding buscar_base
hallada_treinta = refl

anterior_ocupada :
    (k : ℕ) (a : Particion) → 1 ≡ suc k → get_elem? ocupadas k ≡ some a → a.estado ≢ 0
anterior_ocupada zero a e l f = ground (arith, l, f)
anterior_ocupada (suc k) a e l f = absurd (omega arith)

sin_fusion : SinFusion ocupadas 1
sin_fusion = record {
  siguiente = ocupada 30 30;
  hay_siguiente = refl;
  ocupada_siguiente = omega arith;
  ocupada_anterior = anterior_ocupada;
}

liberar_memoria-SinFusion_example :
    (liberar_memoria L true 10 ocupadas ≡ ok (true, set ocupadas 1 (desocupar (ocupada 20 10))))
    × ((x : ℕ) → cubre x (set ocupadas 1 (desocupar (ocupada 20 10))) ≡ cubre x ocupadas)
    × (libre_total (set ocupadas 1 (desocupar (ocupada 20 10))) ≡ libre_total ocupadas + 20)
liberar_memoria-SinFusion_example =
    liberar_memoria-SinFusion L true 10 ocupadas 1 (ocupada 20 10) hallada_diez refl sin_fusion
      (omega arith)

una_en_cero : UnaEnCero ocupadas
una_en_cero zero q l e = ground (arith, l, e)
una_en_cero (suc zero) q l e = ground (arith, l, e)
una_en_cero (suc (suc j)) q l e = ground (arith, l)
