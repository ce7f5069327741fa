-- ===== src/Kernel/Planificador/Despacho.antt =====
-- What the short-term planner gets to do: `enviarTCBCPU` never sends a thread, because
-- `SerializarTCB` does not set the size of its buffer.
use so_tp_2c.Prelude.{ℕ, zero, suc, ◌≡◌, ◌∙◌, refl, inl, inr, List, [], ◌∷◌, none, some, arith}
use so_tp_2c.Prelude.Resultado.{ok, Resultado-cases}
use so_tp_2c.Commons.{CommonsApi}
use so_tp_2c.Comunes.Bytes.{le32}
use so_tp_2c.Comunes.Buffer.{Buffer, buffer_write}
use so_tp_2c.Comunes.Serializar.{Tcb, escribir_palabras, serializar_tcb}
use so_tp_2c.Comunes.Red.Cable.{enviar_operacion-sin_size}
use so_tp_2c.Kernel.Estado.{Puntero, Heap, cargar, Kernel, max_niveles_prioridad}
use so_tp_2c.Kernel.Hilos.Vida.{Entorno}
use so_tp_2c.Kernel.Planificador.{
  sigue, enviar_tcb_cpu, ejecutar_hilo, despachar_fifo, ronda_fifo, despachar_prioridades,
  ronda_prioridades, atender_nivel, atender_niveles, atender_cmn,
}

buffer_write-size : (b c : Buffer) (bytes : List ℕ) → buffer_write b bytes ≡ ok c → c.size ≡ b.size
unfolding buffer_write
buffer_write-size b c bytes e = ground (arith, e)

escribir_palabras-size :
    (ns : List ℕ) (b b' : Buffer) → escribir_palabras b ns ≡ ok b' → b'.size ≡ b.size
unfolding escribir_palabras
escribir_palabras-size [] b b' h = ground (arith, h)
escribir_palabras-size (n ∷ ns) b b' h = elim (Resultado-cases (buffer_write b (le32 n))) [
  | inl (c, e) ↦
      escribir_palabras-size ns c b' (ground (arith, h, e)) ∙ buffer_write-size b c (le32 n) e
  | inr (inl e) ↦ ground (arith, h, e)
  | inr (inr (x, e)) ↦ ground (arith, h, e)
]

serializar_tcb-size :
    (bloque : List ℕ) (t : Tcb) (b : Buffer) → serializar_tcb bloque t ≡ ok b → b.size ≡ none
unfolding serializar_tcb
serializar_tcb-size bloque t b h =
    escribir_palabras-size (t.pid ∷ t.tid ∷ t.prioridad ∷ t.estado ∷ [])
      (record { size = none; offset = 0; stream = bloque }) b h

module _ (C : CommonsApi) (e : Entorno) where
  enviar_tcb_cpu-falla :
      (m : Heap Tcb) (p : Puntero) (bytes : List ℕ) → ¬ (enviar_tcb_cpu C e m p ≡ ok bytes)
  unfolding enviar_tcb_cpu
  enviar_tcb_cpu-falla m p bytes h = elim (Resultado-cases (cargar m p)) [
    | inl (t, et) ↦ elim (Resultado-cases (serializar_tcb (e.malloc 16) t)) [
      | inl (b, eb) ↦ ground (
        arith,
        h,
        et,
        eb,
        enviar_operacion-sin_size 1 b (serializar_tcb-size (e.malloc 16) t b eb),
      )
      | inr (inl eb) ↦ ground (arith, h, et, eb)
      | inr (inr (x, eb)) ↦ ground (arith, h, et, eb)
    ]
    | inr (inl et) ↦ ground (arith, h, et)
    | inr (inr (x, et)) ↦ ground (arith, h, et)
  ]

  pub ejecutar_hilo-igual :
      (k l : Kernel) (p : Puntero) (entrada : List ℕ)
      → ejecutar_hilo C e k p entrada ≡ ok l
      → (l ≡ k) × (p ≡ none)
  unfolding ejecutar_hilo
  ejecutar_hilo-igual k l none entrada h = (ground (arith, h), refl)
  ejecutar_hilo-igual k l (some i) entrada h = grind (arith, h, enviar_tcb_cpu-falla)

  despachar_fifo-procesos :
      (k l : Kernel) (entrada : List ℕ)
      → despachar_fifo C e k entrada ≡ ok l
      → l.procesos ≡ k.procesos
  unfolding despachar_fifo
  despachar_fifo-procesos k l entrada h = grind (arith, h, ejecutar_hilo-igual)

  despachar_prioridades-procesos :
      (k l : Kernel) (entrada : List ℕ)
      → despachar_prioridades C e k entrada ≡ ok l
      → l.procesos ≡ k.procesos
  unfolding despachar_prioridades
  despachar_prioridades-procesos k l entrada h = grind (arith, h, ejecutar_hilo-igual)

  pub ronda_fifo-procesos :
      (k l : Kernel) (entrada : List ℕ)
      → ronda_fifo C e k entrada ≡ ok (sigue l)
      → l.procesos ≡ k.procesos
  unfolding ronda_fifo
  ronda_fifo-procesos k l entrada h = grind (arith, h, despachar_fifo-procesos)

  pub ronda_prioridades-procesos :
      (k l : Kernel) (entrada : List ℕ)
      → ronda_prioridades C e k entrada ≡ ok (sigue l)
      → l.procesos ≡ k.procesos
  unfolding ronda_prioridades
  ronda_prioridades-procesos k l entrada h = grind (arith, h, despachar_prioridades-procesos)

  atender_nivel-procesos :
      (k l : Kernel) (i : ℕ) (entrada : List ℕ)
      → atender_nivel C e k i entrada ≡ ok l
      → l.procesos ≡ k.procesos
  unfolding atender_nivel
  atender_nivel-procesos k l i entrada h = grind (arith, h, ejecutar_hilo-igual)

  atender_niveles-procesos :
      (n i : ℕ) (entradas : ℕ → List ℕ) (k l : Kernel)
      → atender_niveles C e n i entradas k ≡ ok l
      → l.procesos ≡ k.procesos
  unfolding atender_niveles
  atender_niveles-procesos zero i entradas k l h = ground (arith, h)
  atender_niveles-procesos (suc n) i entradas k l h =
      elim (Resultado-cases (atender_nivel C e k i (entradas i))) [
        | inl (m, r) ↦
            atender_niveles-procesos n (suc i) entradas m l (ground (arith, h, r))
            ∙ atender_nivel-procesos k m i (entradas i) r
        | inr (inl r) ↦ ground (arith, h, r)
        | inr (inr (x, r)) ↦ ground (arith, h, r)
      ]

  pub atender_cmn-procesos :
      (entradas : ℕ → List ℕ) (k l : Kernel)
      → atender_cmn C e k entradas ≡ ok l
      → l.procesos ≡ k.procesos
  unfolding atender_cmn
  atender_cmn-procesos entradas k l h =
      atender_niveles-procesos max_niveles_prioridad 0 entradas k l h
