-- ===== src/Memoria/Contexto.antt =====
-- The requests of the CPU to the memory module: memoria/src/manejar_cpu.c.
pub mod Leyes
pub mod Mensajes
pub mod Servicio
use so_tp_2c.Prelude.{length, ℕ, Bool, true, false, Option, none, some, List}
use so_tp_2c.Prelude.Resultado.{Resultado, ok, falla, puntero_nulo, ◌>>=◌}
use so_tp_2c.Commons.{ListaApi, DictApi}
use so_tp_2c.Comunes.Texto.{snprintf_8}
use so_tp_2c.Comunes.Buffer.{buffer_create, buffer_add_string}
use so_tp_2c.Comunes.Red.{enviar_buffer}
use so_tp_2c.Memoria.Pseudocodigo.{Archivos}
use so_tp_2c.Memoria.Particiones.{Particion}
use so_tp_2c.Memoria.Procesos.{RegistrosHilo, Hilo, Proceso, Estado, get_proceso, get_hilo}

-- `t_contexto_cpu`. `base` is the text that `strdup` copies from the base address.
pub record ContextoCpu : Type 0 where
  pub base : List ℕ
  pub limite : ℕ
  pub registros : RegistrosHilo

-- A message of the CPU, with its fields read; `desconocida` is any other operation code.
pub data PeticionCpu : Type 0 where
  obtener_contexto_cpu : ℕ → ℕ → PeticionCpu
  actualizar_contexto_cpu : ℕ → ℕ → ContextoCpu → PeticionCpu
  obtener_instruccion : ℕ → ℕ → ℕ → PeticionCpu
  write_mem read_mem desconocida : PeticionCpu

-- What is sent back; an instruction as its bytes.
pub data RespuestaCpu : Type 0 where
  envia_contexto : ContextoCpu → RespuestaCpu
  envia_estado : Bool → RespuestaCpu
  envia_instruccion : List ℕ → RespuestaCpu

module _ (H : DictApi Hilo) (P : DictApi (Proceso H.Dict)) (L : ListaApi Particion)
    (I : ListaApi (List ℕ)) (archivos : Archivos) (strdup : ℕ → List ℕ) where
  unfoldable pub obtener_contexto : Estado P.Dict → ℕ → ℕ → Resultado (Option ContextoCpu)
  unfolding get_proceso get_hilo
  obtener_contexto m pid tid = elim (get_proceso H P L archivos m pid) [
    | none ↦ ok none
    | some proceso ↦ do
      hilo ← get_hilo H P L archivos m pid tid
      elim hilo [
        | none ↦ ok none
        | some h ↦ ok (
            some (record {
              base = strdup proceso.base;
              limite = proceso.limite;
              registros = h.registro;
            }))
      ]
  ]

  -- The nine registers are copied one by one; base and limit are not.
  abbrev copiar_registros : Hilo → ContextoCpu → Hilo
  copiar_registros h contexto = record h {
    registro = record {
      ax = r.ax;
      bx = r.bx;
      cx = r.cx;
      dx = r.dx;
      ex = r.ex;
      fx = r.fx;
      gx = r.gx;
      hx = r.hx;
      pc = r.pc;
    };
  }
    where
      open contexto use {registros as r}

  unfoldable pub actualizar_contexto :
      Estado P.Dict → ℕ → ℕ → ContextoCpu → Resultado (Bool × Estado P.Dict)
  unfolding get_proceso get_hilo
  actualizar_contexto m pid tid contexto = elim (get_proceso H P L archivos m pid) [
    | none ↦ ok (false, m)
    | some proceso ↦ do
      hilo ← get_hilo H P L archivos m pid tid
      elim hilo [
        | none ↦ ok (false, m)
        | some h ↦ ok (
          true,
          record m {
            procesos = P.dictionary_put m.procesos (snprintf_8 pid) (record proceso {
              hilos = H.dictionary_put proceso.hilos (snprintf_8 tid) (copiar_registros h contexto);
            });
          },
        )
      ]
  ]

  -- The thread is not checked.
  unfoldable pub obtener_instruccion_numero :
      Estado P.Dict → ℕ → ℕ → ℕ → Resultado (Option (List ℕ))
  unfolding get_hilo
  obtener_instruccion_numero m pid tid pc = do
    hilo ← get_hilo H P L archivos m pid tid
    elim hilo [ none ↦ falla puntero_nulo | some h ↦ ok (I.list_get h.instrucciones pc) ]

  -- The instruction is not checked. Its block has room for the text, and its length is written before.
  unfoldable pub enviar_instruccion :
      (ℕ → List ℕ) → Option (List ℕ) → Resultado (Option RespuestaCpu)
  unfolding buffer_add_string enviar_buffer
  enviar_instruccion malloc none = falla puntero_nulo
  enviar_instruccion malloc (some texto) = do
    b ← buffer_add_string (buffer_create (malloc (length texto))) texto
    bytes ← enviar_buffer b
    ok (some (envia_instruccion bytes))

  abbrev responder_contexto : Option ContextoCpu → Option RespuestaCpu
  responder_contexto none = none
  responder_contexto (some c) = some (envia_contexto c)

  -- One round of the loop of `hilo_instrucciones_cpu`.
  unfoldable pub atender_cpu :
      (ℕ → List ℕ) → Estado P.Dict → PeticionCpu → Resultado (Option RespuestaCpu × Estado P.Dict)
  unfolding obtener_contexto actualizar_contexto obtener_instruccion_numero enviar_instruccion
  atender_cpu malloc m (obtener_contexto_cpu pid tid) = do
    contexto ← obtener_contexto m pid tid
    ok (responder_contexto contexto, m)
  atender_cpu malloc m (actualizar_contexto_cpu pid tid contexto) = do
    (estado, m') ← actualizar_contexto m pid tid contexto
    ok (some (envia_estado estado), m')
  atender_cpu malloc m (obtener_instruccion pid tid pc) = do
    instruccion ← obtener_instruccion_numero m pid tid pc
    respuesta ← enviar_instruccion malloc instruccion
    ok (respuesta, m)
  atender_cpu malloc m write_mem = ok (none, m)
  atender_cpu malloc m read_mem = ok (none, m)
  atender_cpu malloc m desconocida = ok (none, m)
