-- ===== src/Pruebas/Nucleo.antt =====
-- A kernel with one process and one thread, for the tests and the theorems at concrete inputs.
mod Altas
mod Colocar
mod Rondas
mod Servidor
use so_tp_2c.Prelude.{
  ℕ, zero, suc, ◌+◌, ◌<◌, ◌≡◌, refl, ap, true, false, Option, none, some, List, [], ◌∷◌, ◌++◌,
  arith, length, get_elem?,
}
use so_tp_2c.Prelude.Resultado.{ok}
use so_tp_2c.Commons.{CommonsApi, commons_api}
use so_tp_2c.Comunes.Bytes.{le32, de_le32}
use so_tp_2c.Comunes.Buffer.{Buffer, buffer_read, buffer_read_uint32}
use so_tp_2c.Comunes.Texto.{codes}
use so_tp_2c.Comunes.Serializar.{Tcb}
use so_tp_2c.Comunes.Red.{recibir_buffer, recibir_en}
use so_tp_2c.Kernel.Colas.Prioridad.{fifo}
use so_tp_2c.Kernel.Estado.{
  Puntero, Hilos, PcbKernel, Procesos, Alta, Kernel, max_niveles_prioridad,
}
use so_tp_2c.Kernel.Pedidos.{leer_respuesta}
use so_tp_2c.Kernel.Hilos.Vida.{Entorno}
use so_tp_2c.Kernel.Hilos.Niveles.{Creadas}

abbrev pub ceros : ℕ → List ℕ
ceros zero = []
ceros (suc n) = 0 ∷ ceros n

pub length-ceros : (n : ℕ) → length (ceros n) ≡ n
length-ceros zero = refl
length-ceros (suc n) = ap suc (length-ceros n)

abbrev pub C : CommonsApi
C = commons_api

-- the size 4 and a word
abbrev pub respuesta : ℕ → List ℕ
respuesta n = 4 ∷ 0 ∷ 0 ∷ 0 ∷ n ∷ 0 ∷ 0 ∷ 0 ∷ []

abbrev pub e : Entorno
e = record {
  malloc = ceros;
  tid_inicial = 5;
  respuesta_proceso = respuesta 1;
  respuesta_hilo = respuesta 1;
  algoritmo = some fifo;
  fuel = 1;
  dump_negativo = false;
}

pub respuesta_uno : leer_respuesta ceros (respuesta 1) ≡ ok 1
unfolding leer_respuesta recibir_buffer recibir_en buffer_read_uint32 buffer_read de_le32
respuesta_uno = refl

abbrev pub tcb : Tcb
tcb = record { pid = 0; tid = 0; prioridad = 3; estado = 2 }

abbrev pub vacias : ℕ → List (Option (List Puntero))
vacias zero = []
vacias (suc n) = some [] ∷ vacias n

pub get_elem?-vacias : (n i : ℕ) → i < n → get_elem? (vacias n) i ≡ some (some [])
get_elem?-vacias zero i h = ground (arith, h)
get_elem?-vacias (suc n) zero h = refl
get_elem?-vacias (suc n) (suc i) h = get_elem?-vacias n i (omega (arith, h))

abbrev pub hilos : Hilos
hilos = record {
  tcbs = some tcb ∷ [];
  lista_exec_hilo = some [];
  lista_bloq_hilo = some [];
  lista_dependencias = some [];
  lista_thread_id = some [];
  cola_ready_fifo_prioridades = some (some 0 ∷ []);
  colas_ready_cmn = vacias max_niveles_prioridad;
  a_memoria = [];
  tomado = false;
}

pub hilos-Creadas : Creadas hilos
hilos-Creadas i h = ground (arith, get_elem?-vacias max_niveles_prioridad i h)

abbrev pub pcb : PcbKernel
pcb = record { pid = 0; estado = 1; tids = []; mutex = [] }

abbrev pub procesos : Procesos
procesos = record {
  pcbs = some pcb ∷ [];
  cola_new = [];
  cola_ready = some 0 ∷ [];
  cola_exec = [];
  process_id = 1;
  sem_nuevo_proceso = 0;
  esperando = [];
}

abbrev pub k : Kernel
k = record { hilos = hilos; procesos = procesos }

-- its thread in execution
abbrev pub k_exec : Kernel
k_exec = record k {
  hilos = record hilos {
    lista_exec_hilo = some (some 0 ∷ []);
    cola_ready_fifo_prioridades = some [];
  };
}

-- its process in cola_new
abbrev pub k_new : Kernel
k_new = record k { procesos = record procesos { cola_new = some 0 ∷ []; cola_ready = [] } }

abbrev pub alta : Alta
alta = record { archivo = codes "a.t"; tamanio = 16; prioridad = 3 }
