-- ===== src/Cpu/Servidor/Respuesta.antt =====
-- What `ServerCPU` of cpu/src/main.c takes from its connection and what it sends back.
use so_tp_2c.Prelude.{
  ℕ, zero, suc, ◌+◌, ◌^◌, ◌<◌, ◌≤◌, ◌≡◌, refl, false, Option, none, some, List, arith, ◌==◌, length,
  take, drop, inl, inr, leb, Bool-cases, ◌∙◌, ◌⊎◌,
}
use so_tp_2c.Prelude.Resultado.{Resultado, ok, exit_failure, falla, Resultado-cases}
use so_tp_2c.Comunes.Bytes.{de_le32}
use so_tp_2c.Comunes.Buffer.{Buffer, buffer_read_uint32}
use so_tp_2c.Comunes.Serializar.{Tcb, deserializar_tcb, deserializar_registros}
use so_tp_2c.Comunes.Serializar.Escritura.{length-drop}
use so_tp_2c.Comunes.Red.{recibir_buffer, recibir_operacion}
use so_tp_2c.Cpu.Registros.{Registros}
use so_tp_2c.Cpu.Ejecucion.{Cpu}
use so_tp_2c.Cpu.Conexion.{solicitar_contexto}
use so_tp_2c.Cpu.Ciclo.{ejecutar_proceso}
use so_tp_2c.Cpu.Servidor.{
  Servidor, Mundo, preparar, entorno_de, devolver, atender_contexto, atender_interrupcion,
  atender_handshake, atender_operacion, atender, op_handshake, op_contexto, op_interrupcion,
  server_cpu,
}

recibir_buffer-resto :
    (malloc : ℕ → List ℕ) (entrada : List ℕ) (b : Buffer) (resto : List ℕ)
    → recibir_buffer malloc entrada ≡ ok (b, resto)
    → length resto ≤ length entrada
unfolding recibir_buffer
recibir_buffer-resto malloc entrada b resto h =
    ground
      (arith, h, length-drop 4 entrada, length-drop (de_le32 (take 4 entrada)) (drop 4 entrada))

module _ (w : Mundo) (s s' : Servidor) (entrada resto : List ℕ) where
  atender_interrupcion-resto :
      atender_interrupcion w s entrada ≡ ok (s', resto) → length resto ≤ length entrada
  unfolding atender_interrupcion
  atender_interrupcion-resto h = elim (Resultado-cases (recibir_buffer w.malloc entrada)) [
    | inl ((b, r), e) ↦ elim (Resultado-cases (buffer_read_uint32 b)) [
      | inl ((n, b'), e') ↦ ground (arith, h, e, e', recibir_buffer-resto w.malloc entrada b r e)
      | inr (inl e') ↦ ground (arith, h, e, e')
      | inr (inr (x, e')) ↦ ground (arith, h, e, e')
    ]
    | inr (inl e) ↦ ground (arith, h, e)
    | inr (inr (x, e)) ↦ ground (arith, h, e)
  ]

  atender_handshake-resto :
      atender_handshake w s entrada ≡ ok (s', resto) → length resto ≤ length entrada
  unfolding atender_handshake
  atender_handshake-resto h = ground (arith, h, length-drop 4 entrada)

  preparar-resto :
      (x : Tcb × Registros) (pedido : List ℕ)
      → preparar w entrada ≡ ok (x, (pedido, resto))
      → length resto ≤ length entrada
  unfolding preparar
  preparar-resto x pedido h = elim (Resultado-cases (recibir_buffer w.malloc entrada)) [
    | inl ((b, r), e) ↦ elim (Resultado-cases (deserializar_tcb b)) [
      | inl ((t, b1), e1) ↦ elim (Resultado-cases (solicitar_contexto (w.malloc 8) t)) [
        | inl (p, e2) ↦ elim (Resultado-cases (recibir_buffer w.malloc w.contexto)) [
          | inl ((bc, r1), e3) ↦ elim (Resultado-cases (deserializar_registros bc)) [
            | inl ((rs, b2), e4) ↦
                ground (arith, h, e, e1, e2, e3, e4, recibir_buffer-resto w.malloc entrada b r e)
            | inr (inl e4) ↦ ground (arith, h, e, e1, e2, e3, e4)
            | inr (inr (x, e4)) ↦ ground (arith, h, e, e1, e2, e3, e4)
          ]
          | inr (inl e3) ↦ ground (arith, h, e, e1, e2, e3)
          | inr (inr (x, e3)) ↦ ground (arith, h, e, e1, e2, e3)
        ]
        | inr (inl e2) ↦ ground (arith, h, e, e1, e2)
        | inr (inr (x, e2)) ↦ ground (arith, h, e, e1, e2)
      ]
      | inr (inl e1) ↦ ground (arith, h, e, e1)
      | inr (inr (x, e1)) ↦ ground (arith, h, e, e1)
    ]
    | inr (inl e) ↦ ground (arith, h, e)
    | inr (inr (x, e)) ↦ ground (arith, h, e)
  ]

  con_ciclo :
      (t : Tcb) (r : Registros) (pedido resto' : List ℕ) (o : Option (Resultado Cpu))
      → preparar w entrada ≡ ok ((t, r), (pedido, resto'))
      → ejecutar_proceso (entorno_de w t) w.fetch w.interrupcion w.fuel r ≡ o
      → atender_contexto w s entrada ≡ some (ok (s', resto))
      → resto ≡ resto'
  unfolding atender_contexto
  con_ciclo t r pedido resto' none e eo h = ground (arith, h, e, eo)
  con_ciclo t r pedido resto' (some (ok c)) e eo h =
      elim (Resultado-cases (devolver w s t pedido c)) [
        | inl (s1, ed) ↦ ground (arith, h, e, eo, ed)
        | inr (inl ed) ↦ ground (arith, h, e, eo, ed)
        | inr (inr (x, ed)) ↦ ground (arith, h, e, eo, ed)
      ]
  con_ciclo t r pedido resto' (some exit_failure) e eo h = ground (arith, h, e, eo)
  con_ciclo t r pedido resto' (some (falla x)) e eo h = ground (arith, h, e, eo)

  atender_contexto-resto :
      atender_contexto w s entrada ≡ some (ok (s', resto)) → length resto ≤ length entrada
  unfolding atender_contexto
  atender_contexto-resto h = elim (Resultado-cases (preparar w entrada)) [
    | inl (((t, r), (pedido, resto')), e) ↦
        let o = ejecutar_proceso (entorno_de w t) w.fetch w.interrupcion w.fuel r in
        ground (
          arith,
          con_ciclo t r pedido resto' o e refl h,
          preparar-resto (t, r) pedido (ground (arith, e, con_ciclo t r pedido resto' o e refl h)),
        )
    | inr (inl e) ↦ ground (arith, h, e)
    | inr (inr (x, e)) ↦ ground (arith, h, e)
  ]

  atender_operacion-resto :
      (op : ℕ)
      → atender_operacion w s op entrada ≡ some (ok (s', resto))
      → length resto ≤ length entrada
  unfolding atender_operacion
  atender_operacion-resto op h = elim (Bool-cases (op == op_handshake)) [
    | inl e ↦ atender_handshake-resto (ground (arith, h, e))
    | inr e ↦ elim (Bool-cases (op == op_contexto)) [
      | inl e1 ↦ atender_contexto-resto (ground (arith, h, e, e1))
      | inr e1 ↦ elim (Bool-cases (op == op_interrupcion)) [
        | inl e2 ↦ atender_interrupcion-resto (ground (arith, h, e, e1, e2))
        | inr e2 ↦ ground (arith, h, e, e1, e2)
      ]
    ]
  ]

-- Every message takes at least the four bytes of its operation.
recibir_operacion-resto :
    (entrada resto : List ℕ) (op : ℕ)
    → recibir_operacion entrada ≡ some (op, resto)
    → 4 + length resto ≤ length entrada
unfolding recibir_operacion
recibir_operacion-resto entrada resto op h = ground (arith, h, length-drop 4 entrada)

module _ (mundos : ℕ → Mundo) where
  -- A turn of the loop ends it, or goes on with fewer bytes.
  unfoldable Vuelta : ℕ → ℕ → Servidor → List ℕ → Type 0
  Vuelta fuel n s entrada =
      ((r : Option (Resultado Servidor)) × (atender mundos n (suc fuel) s entrada ≡ some r))
      ⊎ ((s' : Servidor) × (resto : List ℕ) × (length resto < length entrada)
          × (atender mundos n (suc fuel) s entrada ≡ atender mundos (n + 1) fuel s' resto))

  atendida :
      (fuel n : ℕ) (s : Servidor) (entrada resto : List ℕ) (op : ℕ)
      (o : Option (Resultado (Servidor × List ℕ)))
      → recibir_operacion entrada ≡ some (op, resto)
      → leb (2 ^ 31) op ≡ false
      → atender_operacion (mundos n) s op resto ≡ o
      → Vuelta fuel n s entrada
  unfolding Vuelta atender
  atendida fuel n s entrada resto op none e f g = inl (none, ground (arith, e, f, g))
  atendida fuel n s entrada resto op (some exit_failure) e f g =
      inl (some exit_failure, ground (arith, e, f, g))
  atendida fuel n s entrada resto op (some (falla x)) e f g =
      inl (some (falla x), ground (arith, e, f, g))
  atendida fuel n s entrada resto op (some (ok (s', resto'))) e f g = inr (
    s',
    resto',
    omega (
      arith,
      recibir_operacion-resto entrada resto op e,
      atender_operacion-resto (mundos n) s s' resto resto' op g,
    ),
    ground (arith, e, f, g),
  )

  recibida :
      (fuel n : ℕ) (s : Servidor) (entrada : List ℕ) (o : Option (ℕ × List ℕ))
      → recibir_operacion entrada ≡ o
      → Vuelta fuel n s entrada
  unfolding Vuelta atender
  recibida fuel n s entrada none e = inl (some (ok s), ground (arith, e))
  recibida fuel n s entrada (some (op, resto)) e = elim (Bool-cases (leb (2 ^ 31) op)) [
    | inl f ↦ inl (some (ok s), ground (arith, e, f))
    | inr f ↦ atendida fuel n s entrada resto op (atender_operacion (mundos n) s op resto) e f refl
  ]

  -- More turns than there are bytes are enough.
  atender-termina :
      (fuel n : ℕ) (s : Servidor) (entrada : List ℕ)
      → length entrada < fuel
      → (r : Option (Resultado Servidor)) × (atender mundos n fuel s entrada ≡ some r)
  unfolding Vuelta
  atender-termina zero n s entrada h = ground (arith, h)
  atender-termina (suc fuel) n s entrada h =
      elim (recibida fuel n s entrada (recibir_operacion entrada) refl) [
        | inl x ↦ x
        | inr (s', resto, hl, e) ↦
            let (r, er) = atender-termina fuel (n + 1) s' resto (omega (arith, h, hl)) in
            (r, e ∙ er)
      ]

  -- The loop of ServerCPU ends, by a failure, by the end of the connection or at a cycle that uses up its
  -- own fuel: more turns than bytes are received are enough for it, whatever the messages are and
  -- whatever surrounds them.
  pub server_cpu-termina :
      (fuel : ℕ) (s : Servidor) (entrada : List ℕ)
      → length entrada < fuel
      → (r : Option (Resultado Servidor)) × (server_cpu mundos fuel s entrada ≡ some r)
  unfolding server_cpu
  server_cpu-termina fuel s entrada h =
      atender-termina fuel 0 (record s { interrupcion_recibida = false }) entrada h
