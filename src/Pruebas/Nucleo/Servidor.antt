-- ===== src/Pruebas/Nucleo/Servidor.antt =====
-- The server of the CPU and the context that the memory sends it, at concrete inputs.
use so_tp_2c.Prelude.{
  ◌≢◌, ◌⊎◌, ◌==◌, ℕ, ◌≡◌, refl, true, false, Option, some, List, [], ◌∷◌, ◌++◌, arith,
}
use so_tp_2c.Prelude.Resultado.{Resultado, ok, falla, fuera_de_bloque}
use so_tp_2c.Comunes.Bytes.{le32, de_le32}
use so_tp_2c.Comunes.Buffer.{
  Buffer, buffer_add_uint32, buffer_write, buffer_read, buffer_read_uint32,
}
use so_tp_2c.Comunes.Texto.{codes, tokens, texto_eq, atoi}
use so_tp_2c.Comunes.Serializar.{Tcb, deserializar_tcb, deserializar_registros}
use so_tp_2c.Comunes.Serializar.Escritura.{bytes_de}
use so_tp_2c.Comunes.Red.{enviar_buffer, enviar_operacion, recibir_buffer, recibir_en}
use so_tp_2c.Cpu.Registros.{Registros, obtener_registro, guardar}
use so_tp_2c.Cpu.Ciclo.{ciclo, ejecutar_ciclos, ejecutar_proceso}
use so_tp_2c.Cpu.Conexion.{solicitar_contexto}
use so_tp_2c.Cpu.Instruccion.{parsear_instruccion, obtener_instruccion, numero_de}
use so_tp_2c.Cpu.Ejecucion.{Cpu, numero, execute_instruccion, execute_set}
use so_tp_2c.Cpu.Servidor.{
  Servidor, Mundo, preparar, entorno_de, atender_contexto, server_cpu,
  memoria_cpu_actualizar_contexto,
}
use so_tp_2c.Cpu.Servidor.Respuesta.{server_cpu-termina}
use so_tp_2c.Cpu.Servidor.Vacia.{atender_contexto-interpretar_cpu, palabras}
use so_tp_2c.Memoria.Contexto.{ContextoCpu}
use so_tp_2c.Memoria.Contexto.Mensajes.{enviar_contexto, deserializar_registros-enviar_contexto}
use so_tp_2c.Kernel.Interpretar.{interpretar_cpu}
use so_tp_2c.Pruebas.Nucleo.{ceros, length-ceros, C, e, k}

abbrev registros : Registros
registros = record {
  pc = 7;
  ax = 0;
  bx = 0;
  cx = 0;
  dx = 0;
  ex = 0;
  fx = 0;
  gx = 0;
  hx = 0;
  base = 0;
  limite = 64;
}

-- the size 44, the program counter 7, and the limit at the end
abbrev contexto : List ℕ
contexto = 44 ∷ 0 ∷ 0 ∷ 0 ∷ 7 ∷ 0 ∷ 0 ∷ 0 ∷ (ceros 36 ++ (64 ∷ 0 ∷ 0 ∷ 0 ∷ []))

-- one instruction, SET AX 5, and then the interruption
abbrev mundo : Mundo
mundo = record {
  malloc = ceros;
  inicial = 9;
  contexto = contexto;
  fetch = λ n. some (codes "SET AX 5");
  leer_en_memoria = λ d. 0;
  escribir_en_memoria = λ d v. 0;
  value_32_sin_valor = ok 0;
  interrupcion = λ n. n == 2;
  al_final = true;
  fuel = 2;
}

abbrev servidor : Servidor
servidor = record {
  interrupcion_recibida = false;
  proceso_en_ejecucion = 0;
  thread_en_ejecucion = 0;
  a_memoria = [];
  a_kernel = [];
}

-- the TCB with PID 2 and TID 1
abbrev entrada : List ℕ
entrada = 16 ∷ 0 ∷ 0 ∷ 0 ∷ 2 ∷ 0 ∷ 0 ∷ 0 ∷ 1 ∷ 0 ∷ 0 ∷ 0 ∷ 3 ∷ 0 ∷ 0 ∷ 0 ∷ 1 ∷ 0 ∷ 0 ∷ 0 ∷ []

abbrev hilo : Tcb
hilo = record { pid = 2; tid = 1; prioridad = 3; estado = 1 }

abbrev pedido : List ℕ
pedido = 0 ∷ 0 ∷ 0 ∷ 0 ∷ 8 ∷ 0 ∷ 0 ∷ 0 ∷ 2 ∷ 0 ∷ 0 ∷ 0 ∷ 1 ∷ 0 ∷ 0 ∷ 0 ∷ []

preparado : preparar mundo entrada ≡ ok ((hilo, registros), (pedido, []))
unfolding preparar recibir_buffer recibir_en deserializar_tcb solicitar_contexto
    deserializar_registros buffer_read_uint32 buffer_read buffer_add_uint32 buffer_write
    enviar_operacion enviar_buffer de_le32 le32
preparado = refl

-- AX is 5, the program counter is one more, and SET is reported
abbrev tras_set : Cpu
tras_set = record {
  registros = record registros { pc = 8; ax = 5 };
  retorno = numero 2 ∷ numero 1 ∷ numero 0 ∷ [];
}

interrumpido :
    ejecutar_proceso (entorno_de mundo hilo) mundo.fetch mundo.interrupcion mundo.fuel registros
    ≡ some (ok tras_set)
unfolding ejecutar_proceso ejecutar_ciclos ciclo execute_instruccion execute_set parsear_instruccion
    tokens obtener_instruccion texto_eq obtener_registro guardar numero_de atoi
interrumpido = refl

atender_contexto-interpretar_cpu_example :
    ((tras_set.retorno ≢ [])
      × (atender_contexto mundo servidor entrada ≡ some (falla fuera_de_bloque)))
    ⊎ ((tras_set.retorno ≡ [])
        × (s' : Servidor) × (atender_contexto mundo servidor entrada ≡ some (ok (s', [])))
        × (s'.a_memoria
            ≡ pedido
              ++ (le32 memoria_cpu_actualizar_contexto
                  ++ (le32 44 ++ bytes_de (palabras tras_set.registros 2 1))))
        × (s'.a_kernel ≡ le32 0)
        × (interpretar_cpu C e k (le32 0 ++ (9 ∷ [])) ≡ falla fuera_de_bloque))
atender_contexto-interpretar_cpu_example =
    atender_contexto-interpretar_cpu C e k mundo servidor entrada [] (9 ∷ []) hilo registros pedido
      tras_set refl refl refl preparado interrumpido

server_cpu-termina_example :
    (r : Option (Resultado Servidor)) × (server_cpu
        (λ n. mundo)
        25
        servidor
        (1 ∷ 0 ∷ 0 ∷ 0 ∷ entrada)
      ≡ some r)
server_cpu-termina_example =
    server_cpu-termina (λ n. mundo) 25 servidor (1 ∷ 0 ∷ 0 ∷ 0 ∷ entrada) (omega arith)

abbrev contexto_cpu : ContextoCpu
contexto_cpu = record {
  base = codes "0x1";
  limite = 64;
  registros = record { ax = 1; bx = 2; cx = 3; dx = 4; ex = 5; fx = 6; gx = 7; hx = 8; pc = 9 };
}

deserializar_registros-enviar_contexto_example :
    (cable : List ℕ) × (b : Buffer) × (r : Registros) × (b' : Buffer) × (enviar_contexto
        (ceros 56)
        contexto_cpu
      ≡ ok cable)
    × (recibir_buffer ceros cable ≡ ok (b, []))
    × (deserializar_registros b ≡ ok (r, b'))
    × (r.pc ≡ 3)
deserializar_registros-enviar_contexto_example =
    deserializar_registros-enviar_contexto ceros contexto_cpu length-ceros (omega arith)
