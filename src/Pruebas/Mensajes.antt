-- ===== src/Pruebas/Mensajes.antt =====
-- The messages between the modules: the theorems at concrete structures.
use so_tp_2c.Prelude.{ℕ, ◌+◌, ◌*◌, ◌≡◌, refl, zero, suc, some, List, [], ◌∷◌, ◌++◌, arith, length}
use so_tp_2c.Prelude.Resultado.{ok}
use so_tp_2c.Comunes.Buffer.{Buffer, buffer_create}
use so_tp_2c.Comunes.Buffer.Leyes.{avanzado}
use so_tp_2c.Comunes.Red.{enviar_operacion, recibir_operacion, recibir_buffer}
use so_tp_2c.Comunes.Red.Cable.{recibir-enviar_operacion}
use so_tp_2c.Comunes.Serializar.{Tcb, palabras_de}
use so_tp_2c.Comunes.Serializar.Escritura.{SonPalabras}
use so_tp_2c.Comunes.Serializar.Pcb.{
  Pcb, serializar_pcb, deserializar_pcb, deserializar-serializar_pcb,
}
use so_tp_2c.Cpu.Registros.{Registros}

abbrev ceros : ℕ → List ℕ
ceros zero = []
ceros (suc n) = 0 ∷ ceros n

length-ceros : (n : ℕ) → length (ceros n) ≡ n
length-ceros zero = refl
length-ceros (suc n) = ground (arith, length-ceros n)

abbrev mensaje : Buffer
mensaje = buffer_create (1 ∷ 2 ∷ 3 ∷ [])

recibir-enviar_operacion_example :
    (cable : List ℕ) × (entrada : List ℕ) × (enviar_operacion 300 mensaje ≡ ok cable)
    × (recibir_operacion (cable ++ (9 ∷ [])) ≡ some (300, entrada))
    × (recibir_buffer ceros entrada ≡ ok (buffer_create mensaje.stream, 9 ∷ []))
recibir-enviar_operacion_example =
    recibir-enviar_operacion ceros length-ceros 300 mensaje (9 ∷ []) (omega arith) refl
      (omega arith)

abbrev tcb : Tcb
tcb = record { pid = 5; tid = 7; prioridad = 2; estado = 1 }

abbrev registros : Registros
registros = record {
  pc = 4;
  ax = 10;
  bx = 20;
  cx = 30;
  dx = 0;
  ex = 0;
  fx = 0;
  gx = 0;
  hx = 0;
  base = 16;
  limite = 32;
}

SonPalabras-registros : SonPalabras (palabras_de registros)
unfolding SonPalabras palabras_de
SonPalabras-registros = (
  omega arith,
  (
    omega arith,
    (
      omega arith,
      (
        omega arith,
        (
          omega arith,
          (
            omega arith,
            (omega arith, (omega arith, (omega arith, (omega arith, (omega arith, tt))))),
          ),
        ),
      ),
    ),
  ),
)

abbrev mensaje_leido : Buffer
mensaje_leido = avanzado mensaje 3

abbrev pcb : Pcb
pcb = record { pid = 5; estado = 1; tids = 0 ∷ 1 ∷ []; mutex = 9 ∷ [] }

deserializar-serializar_pcb_example :
    (b : Buffer) × (serializar_pcb (ceros 1024) 0 pcb ≡ ok b)
    × (b.size ≡ some (4 * (3 + length pcb.tids + length pcb.mutex)))
    × (deserializar_pcb 0 b ≡ ok (record pcb { estado = 0 }))
unfolding SonPalabras
deserializar-serializar_pcb_example =
    deserializar-serializar_pcb pcb (ceros 1024) 0 0 (length-ceros 1024) (omega arith) (omega arith)
      (omega arith, (omega arith, tt)) (omega arith, tt)
