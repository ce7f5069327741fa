-- ===== src/Kernel/Hilos/Fin.antt =====
-- What finalizar_hilo of kernel/src/k_largo_plazo.c leaves behind.
use so_tp_2c.Prelude.{
  ℕ, ◌≡◌, ◌≢◌, false, none, some, List, [], ◌∷◌, ◌++◌, arith, length, length-append, take,
  get_elem?, set,
}
use so_tp_2c.Prelude.Resultado.{ok}
use so_tp_2c.Commons.{CommonsApi}
use so_tp_2c.Comunes.Bytes.{le32, length-le32}
use so_tp_2c.Comunes.Buffer.{buffer_add_uint32}
use so_tp_2c.Comunes.Buffer.Escritor.{escribir_partes-buffer_create}
use so_tp_2c.Comunes.Serializar.{Tcb}
use so_tp_2c.Comunes.Red.{enviar_buffer, enviar_operacion}
use so_tp_2c.Memoria.Peticiones.{memoria_kernel_finalizar_hilo}
use so_tp_2c.Kernel.Estado.{Dependencia, cargar, liberar, creada, Hilos}
use so_tp_2c.Kernel.Pedidos.{leer_respuesta, finalizar_hilo_memoria}
use so_tp_2c.Kernel.Hilos.{dependiente_en, tiene_dependiente, liberar_tcb}
use so_tp_2c.Kernel.Hilos.Vida.{Entorno, finalizar_hilo}

finalizar_hilo_memoria-cabe :
    (malloc : ℕ → List ℕ) (t : Tcb) (n : ℕ) (respuesta : List ℕ)
    → length (malloc 8) ≡ 8
    → leer_respuesta malloc respuesta ≡ ok n
    → (enviado : List ℕ) × (finalizar_hilo_memoria malloc t respuesta ≡ ok (enviado, n))
unfolding finalizar_hilo_memoria buffer_add_uint32 enviar_operacion enviar_buffer
finalizar_hilo_memoria-cabe malloc t n respuesta hm hr =
    let (b, resto, eb, s, v, largo) =
      escribir_partes-buffer_create (le32 t.pid ∷ le32 t.tid ∷ []) (malloc 8) (
        omega (
          arith,
          hm,
          length-append (le32 t.pid) (le32 t.tid ++ []),
          length-append (le32 t.tid) [],
          length-le32 t.pid,
          length-le32 t.tid,
        )) in
    (
      le32 memoria_kernel_finalizar_hilo
          ++ (le32 (length b.stream) ++ take (length b.stream) b.stream),
      ground (arith, eb, s, hr),
    )

module _ (C : CommonsApi) (e : Entorno) where
  -- finalizar_hilo of a live thread that no other waits for, when malloc returns the block asked for and
  -- the answer is read as a number other than 0, frees the thread and leaves every list and queue as it
  -- was.
  pub finalizar_hilo-libera :
      (h : Hilos) (i n : ℕ) (t : Tcb) (ds : List Dependencia)
      → length (e.malloc 8) ≡ 8
      → leer_respuesta e.malloc e.respuesta_hilo ≡ ok n
      → n ≢ 0
      → get_elem? h.tcbs i ≡ some (some t)
      → h.lista_dependencias ≡ some ds
      → dependiente_en C ds (some i) ≡ false
      → (enviado : List ℕ) × (finalizar_hilo C e h (some i)
          ≡ ok (record h { tcbs = set h.tcbs i none; a_memoria = h.a_memoria ++ (enviado ∷ []) }))
  unfolding finalizar_hilo cargar liberar liberar_tcb tiene_dependiente creada
  finalizar_hilo-libera h i n t ds hm hr hn hi hd hs =
      let (enviado, he) = finalizar_hilo_memoria-cabe e.malloc t n e.respuesta_hilo hm hr in
      (enviado, ground (arith, he, hn, hi, hd, hs))
