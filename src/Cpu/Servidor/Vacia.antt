-- ===== src/Cpu/Servidor/Vacia.antt =====
-- What the kernel reads of the answer that `ServerCPU` of cpu/src/main.c sends it.
use so_tp_2c.Prelude.{
  ◌⊎◌, inl, inr, ◌≢◌, ◌<◌, ℕ, ◌≡◌, refl, some, List, [], ◌∷◌, ◌++◌, arith, length, append-nil,
  take-length_append,
}
use so_tp_2c.Prelude.Resultado.{ok, falla, fuera_de_bloque}
use so_tp_2c.Commons.{CommonsApi}
use so_tp_2c.Comunes.Bytes.{le32, length-le32}
use so_tp_2c.Comunes.Buffer.{
  buffer_create, buffer_write, buffer_add_uint32, buffer_add_string, buffer_read,
  buffer_read_uint32,
}
use so_tp_2c.Comunes.Serializar.{Tcb, deserializar_tcb, serializar_pid_tid}
use so_tp_2c.Comunes.Serializar.Escritura.{
  bytes_de, escribir_palabras_lem, length-bytes_de, drop_todo,
}
use so_tp_2c.Comunes.Red.{enviar_buffer, enviar_operacion}
use so_tp_2c.Comunes.Red.Cable.{recibir_buffer-le32}
use so_tp_2c.Cpu.Registros.{Registros}
use so_tp_2c.Cpu.Ejecucion.{Campo, numero, texto, Cpu}
use so_tp_2c.Cpu.Ciclo.{ejecutar_proceso}
use so_tp_2c.Cpu.Servidor.{
  escribir_campos, Servidor, Mundo, preparar, entorno_de, devolver, atender_contexto,
  memoria_cpu_actualizar_contexto,
}
use so_tp_2c.Kernel.Estado.{Kernel}
use so_tp_2c.Kernel.Hilos.Vida.{Entorno}
use so_tp_2c.Kernel.Interpretar.{leer_cabecera, interpretar_cpu}

-- An answer of size 0 has nothing for interpretarCPU, which reads past the end of its block.
leer_cabecera-vacia :
    (malloc : ℕ → List ℕ) (resto : List ℕ)
    → length (malloc 0) ≡ 0
    → leer_cabecera malloc (le32 0 ++ resto) ≡ falla fuera_de_bloque
unfolding leer_cabecera deserializar_tcb buffer_read_uint32 buffer_read
leer_cabecera-vacia malloc resto h =
    ground (arith, recibir_buffer-le32 malloc [] resto h (omega arith))

-- the registers as SerializarPIDTID writes them, with the identifiers at the end
abbrev pub palabras : Registros → ℕ → ℕ → List ℕ
palabras r pid tid = r.pc ∷ r.ax ∷ r.bx ∷ r.cx ∷ r.dx ∷ r.ex ∷ r.fx ∷ r.gx ∷ r.hx ∷ pid ∷ tid ∷ []

serializar_pid_tid-bytes :
    (bloque : List ℕ) (inicial : ℕ) (r : Registros) (pid tid : ℕ)
    → length bloque ≡ 44
    → serializar_pid_tid bloque inicial r pid tid
      ≡ ok (record { size = some 44; offset = inicial; stream = bytes_de (palabras r pid tid) })
unfolding serializar_pid_tid
serializar_pid_tid-bytes bloque inicial r pid tid h = ground (
  arith,
  escribir_palabras_lem (record { size = some 44; offset = 0; stream = bloque })
      (palabras r pid tid) [] bloque refl refl (omega (arith, h)),
  drop_todo bloque 44 h,
  append-nil (bytes_de (palabras r pid tid)),
)

enviar_buffer-lleno :
    (s : List ℕ) (n i : ℕ)
    → length s ≡ n
    → enviar_buffer (record { size = some n; offset = i; stream = s }) ≡ ok (le32 n ++ s)
unfolding enviar_buffer
enviar_buffer-lleno s n i h = ground (arith, h, take-length_append s [], append-nil s)

nada : (xs : List ℕ) → length xs ≡ 0 → xs ≡ []
nada [] h = refl
nada (x ∷ xs) h = ground (arith, h)

List-cases :
    (xs : List Campo) → (xs ≡ []) ⊎ ((f : Campo) × (campos : List Campo) × (xs ≡ f ∷ campos))
List-cases [] = inl refl
List-cases (f ∷ campos) = inr (f, campos, refl)

-- Nothing can be written into a block of size 0.
sin_sitio :
    (bytes : List ℕ)
    → 0 < length bytes
    → buffer_write (buffer_create []) bytes ≡ falla fuera_de_bloque
unfolding buffer_write
sin_sitio bytes h = ground (arith, h)

escribir_campos-sin_sitio :
    (f : Campo) (campos : List Campo)
    → escribir_campos (buffer_create []) (f ∷ campos) ≡ falla fuera_de_bloque
unfolding escribir_campos buffer_add_uint32 buffer_add_string
escribir_campos-sin_sitio (numero n) campos =
    ground (arith, sin_sitio (le32 n) (omega (arith, length-le32 n)))
escribir_campos-sin_sitio (texto t) campos =
    ground (arith, sin_sitio (le32 (length t)) (omega (arith, length-le32 (length t))))

devolver-sin_sitio :
    (w : Mundo) (s : Servidor) (t : Tcb) (pedido : List ℕ) (c : Cpu) (f : Campo)
    (campos : List Campo)
    → length (w.malloc 0) ≡ 0
    → c.retorno ≡ f ∷ campos
    → devolver w s t pedido c ≡ falla fuera_de_bloque
unfolding devolver
devolver-sin_sitio w s t pedido c f campos h hr =
    ground (arith, hr, nada (w.malloc 0) h, escribir_campos-sin_sitio f campos)

devolver_lem :
    (w : Mundo) (s : Servidor) (t : Tcb) (pedido : List ℕ) (c : Cpu)
    → length (w.malloc 44) ≡ 44
    → c.retorno ≡ []
    → length (w.malloc 0) ≡ 0
    → (s' : Servidor) × (devolver w s t pedido c ≡ ok s')
      × (s'.a_kernel ≡ s.a_kernel ++ le32 0)
      × (s'.a_memoria
          ≡ s.a_memoria
            ++ (pedido
                ++ (le32 memoria_cpu_actualizar_contexto
                    ++ (le32 44 ++ bytes_de (palabras c.registros t.pid t.tid)))))
unfolding devolver enviar_operacion escribir_campos
devolver_lem w s t pedido c h hr hz = (
  record {
    interrupcion_recibida = w.al_final;
    proceso_en_ejecucion = t.pid;
    thread_en_ejecucion = t.tid;
    a_memoria =
        s.a_memoria
        ++ (pedido
            ++ (le32 memoria_cpu_actualizar_contexto
                ++ (le32 44 ++ bytes_de (palabras c.registros t.pid t.tid))));
    a_kernel = s.a_kernel ++ le32 0;
  },
  ground (
    arith,
    serializar_pid_tid-bytes (w.malloc 44) w.inicial c.registros t.pid t.tid h,
    enviar_buffer-lleno (bytes_de (palabras c.registros t.pid t.tid)) 44 w.inicial
        (length-bytes_de (palabras c.registros t.pid t.tid)),
    hr,
    nada (w.malloc 0) hz,
    enviar_buffer-lleno [] 0 0 refl,
    append-nil (le32 0),
    length-bytes_de (palabras c.registros t.pid t.tid),
    take-length_append (bytes_de (palabras c.registros t.pid t.tid)) [],
    append-nil (bytes_de (palabras c.registros t.pid t.tid)),
  ),
  refl,
  refl,
)

-- After the execution of a thread the kernel gets nothing of what the instructions have reported. When
-- they have reported anything, the report is written past the end of its block, which has the size 0.
-- When they have not, the CPU sends the memory the request of the context, then its registers with its
-- identifiers, and the kernel the size 0; interpretarCPU, where that arrives, reads past the end of its
-- block. The message of the kernel and the context can be read, the cycle ends, and malloc returns
-- blocks of the size asked for.
pub atender_contexto-interpretar_cpu :
    (C : CommonsApi) (e : Entorno) (k : Kernel) (w : Mundo) (s : Servidor)
    (entrada resto mas : List ℕ) (t : Tcb) (r : Registros) (pedido : List ℕ) (c : Cpu)
    → length (w.malloc 44) ≡ 44
    → length (w.malloc 0) ≡ 0
    → length (e.malloc 0) ≡ 0
    → preparar w entrada ≡ ok ((t, r), (pedido, resto))
    → ejecutar_proceso (entorno_de w t) w.fetch w.interrupcion w.fuel r ≡ some (ok c)
    → ((c.retorno ≢ []) × (atender_contexto w s entrada ≡ some (falla fuera_de_bloque)))
      ⊎ ((c.retorno ≡ [])
          × (s' : Servidor) × (atender_contexto w s entrada ≡ some (ok (s', resto)))
          × (s'.a_memoria
              ≡ s.a_memoria
                ++ (pedido
                    ++ (le32 memoria_cpu_actualizar_contexto
                        ++ (le32 44 ++ bytes_de (palabras c.registros t.pid t.tid)))))
          × (s'.a_kernel ≡ s.a_kernel ++ le32 0)
          × (interpretar_cpu C e k (le32 0 ++ mas) ≡ falla fuera_de_bloque))
unfolding atender_contexto interpretar_cpu
atender_contexto-interpretar_cpu C e k w s entrada resto mas t r pedido c hm hz he hp hc =
    elim (List-cases c.retorno) [
      | inl hr ↦
          let (s', d, ker, mem) = devolver_lem w s t pedido c hm hr hz in
          inr (
            hr,
            s',
            ground (arith, hp, hc, d),
            mem,
            ker,
            ground (arith, leer_cabecera-vacia e.malloc mas he),
          )
      | inr (f, campos, hr) ↦ inl (
        λ h. ground (arith, h, hr),
        ground (arith, hp, hc, devolver-sin_sitio w s t pedido c f campos hz hr),
      )
    ]
