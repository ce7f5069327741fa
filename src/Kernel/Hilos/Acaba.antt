-- ===== src/Kernel/Hilos/Acaba.antt =====
-- When a computation on the threads of the kernel ends within its fuel, and the parts of
-- agregarHiloAReady, of kernel/src/main.c, that do.
use so_tp_2c.Prelude.{
  ℕ, zero, suc, ◌≤◌, ◌<◌, ◌≡◌, ◌≢◌, refl, sym, subst, ap, ◌∙◌, Bool, Option, none, some, List, [],
  ◌∷◌, arith, length, remove_at,
}
use so_tp_2c.Prelude.Resultado.{Resultado, ok, exit_failure, falla, sin_fin, Falla}
use so_tp_2c.Commons.{CommonsApi, sin_primero_que}
use so_tp_2c.Comunes.Serializar.{Tcb}
use so_tp_2c.Kernel.Estado.{
  Puntero, Heap, Dependencia, cargar, guardar_en, creada, Hilos, comparar_por_pid_y_tid,
}
use so_tp_2c.Kernel.Hilos.{insertar_en_cola_ready_cmn, quitar_tcb_de_lista_exec_hilo}

-- How many dependencies there are.
abbrev pub contadas : Option (List Dependencia) → ℕ
contadas none = 0
contadas (some ds) = length ds

abbrev pub dependencias : Hilos → ℕ
dependencias h = contadas h.lista_dependencias

-- The computation does not run out of fuel, and leaves at most so many dependencies.
abbrev pub Acaba : ℕ → Resultado Hilos → Type 0
Acaba m r = (r ≢ falla sin_fin) × ((l : Hilos) → r ≡ ok l → dependencias l ≤ m)

pub por_igual : {m : ℕ} {r : Resultado Hilos} (s : Resultado Hilos) → r ≡ s → Acaba m s → Acaba m r
por_igual {m} s e a = subst (Acaba m) (sym e) a

pub Acaba-ok : (m : ℕ) (h : Hilos) → dependencias h ≤ m → Acaba m (ok h)
Acaba-ok m h v = (λ e. ground (arith, e), λ l e. ground (arith, e, v))

pub Acaba-falla : (m : ℕ) (x : Falla) → x ≢ sin_fin → Acaba m (falla x)
Acaba-falla m x n = (λ e. ground (arith, e, n), λ l e. ground (arith, e))

pub Acaba-exit : (m : ℕ) → Acaba m exit_failure
Acaba-exit m = (λ e. ground (arith, e), λ l e. ground (arith, e))

pub length-remove_at :
    {A : Type 0} (xs : List A) (i : ℕ) → i < length xs → suc (length (remove_at xs i)) ≡ length xs
length-remove_at [] i h = ground (arith, h)
length-remove_at (x ∷ xs) zero h = refl
length-remove_at (x ∷ xs) (suc i) h = ap suc (length-remove_at xs i (omega (arith, h)))

pub cargar-falla :
    {A : Type 0} (m : Heap A) (p : Puntero) (x : Falla) → cargar m p ≡ falla x → x ≢ sin_fin
unfolding cargar
cargar-falla m p x e n = ground (arith, e, n)

pub guardar_en-falla :
    {A : Type 0} (m : Heap A) (p : Puntero) (a : A) (x : Falla)
    → guardar_en m p a ≡ falla x
    → x ≢ sin_fin
unfolding guardar_en
guardar_en-falla m p a x e n = ground (arith, e, n)

module _ (C : CommonsApi) where
  pub insertar-Acaba :
      (h : Hilos) (p : Puntero)
      → (insertar_en_cola_ready_cmn C h p ≢ falla sin_fin)
        × ((b : Bool) (l : Hilos)
            → insertar_en_cola_ready_cmn C h p ≡ ok (b, l)
            → l.lista_dependencias ≡ h.lista_dependencias)
  unfolding insertar_en_cola_ready_cmn
  insertar-Acaba h p = (λ e. grind (arith, e, cargar-falla h.tcbs p), λ b l e. ground (arith, e))

  comparar-falla :
      (m : Heap Tcb) (pid tid : ℕ) (p : Puntero)
      → comparar_por_pid_y_tid m pid tid p ≢ falla sin_fin
  unfolding comparar_por_pid_y_tid
  comparar-falla m pid tid p e = grind (arith, e, cargar-falla m p)

  sin_primero_que-Acaba :
      (m : Heap Tcb) (pid tid : ℕ) (ps : List Puntero)
      → sin_primero_que ps (comparar_por_pid_y_tid m pid tid) ≢ falla sin_fin
  sin_primero_que-Acaba m pid tid [] e = ground (arith, e)
  sin_primero_que-Acaba m pid tid (p ∷ ps) e =
      ground (arith, e, comparar-falla m pid tid p, sin_primero_que-Acaba m pid tid ps)

  pub quitar-Acaba :
      (m : Heap Tcb) (o : Option (List Puntero)) (pid tid : ℕ)
      → quitar_tcb_de_lista_exec_hilo C m o pid tid ≢ falla sin_fin
  unfolding quitar_tcb_de_lista_exec_hilo creada
  quitar-Acaba m none pid tid e = ground (arith, e)
  quitar-Acaba m (some ps) pid tid e =
      sin_primero_que-Acaba m pid tid ps
        (sym ((C.lista Puntero).list_remove_first ps (comparar_por_pid_y_tid m pid tid)) ∙ e)
