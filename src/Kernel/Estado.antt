-- ===== src/Kernel/Estado.antt =====
-- The state of the kernel: the global variables of kernel/src/main.c and kernel/src/k_largo_plazo.c
-- that its functions change, and the structures of kernel/include/main.h and utils/src/commons.h.
-- A pointer to a TCB or to a PCB is the number of the allocation, and NULL is `none`; an allocation
-- that was freed stays as `none`. A list or queue that was never created is NULL too.
use so_tp_2c.Prelude.{
  ℕ, zero, suc, ◌==◌, ◌&&◌, Bool, false, Option, none, some, List, [], ◌∷◌, get_elem?, set,
}
use so_tp_2c.Prelude.Resultado.{
  Resultado, ok, falla, puntero_nulo, uso_tras_free, free_invalido, ◌>>=◌,
}
use so_tp_2c.Comunes.Serializar.{Tcb}

abbrev pub Puntero : Type 0
Puntero = Option ℕ

-- what a list or a queue of pointers answers: NULL when it has no such member
abbrev pub aplanar : Option Puntero → Puntero
aplanar none = none
aplanar (some p) = p

-- what `malloc` has returned so far
abbrev pub Heap : Type 0 → Type 0
Heap A = List (Option A)

-- a read through a pointer
unfoldable pub cargar : {A : Type 0} → Heap A → Puntero → Resultado A
cargar m none = falla puntero_nulo
cargar m (some i) = elim (get_elem? m i) [
  | none ↦ falla puntero_nulo
  | some o ↦ elim o [ none ↦ falla uso_tras_free | some a ↦ ok a ]
]

-- a write through a pointer
unfoldable pub guardar_en : {A : Type 0} → Heap A → Puntero → A → Resultado (Heap A)
guardar_en m none a = falla puntero_nulo
guardar_en m (some i) a = elim (get_elem? m i) [
  | none ↦ falla puntero_nulo
  | some o ↦ elim o [ none ↦ falla uso_tras_free | some _ ↦ ok (set m i (some a)) ]
]

-- `free`, which does nothing on NULL
unfoldable pub liberar : {A : Type 0} → Heap A → Puntero → Resultado (Heap A)
liberar m none = ok m
liberar m (some i) = elim (get_elem? m i) [
  | none ↦ falla free_invalido
  | some o ↦ elim o [ none ↦ falla free_invalido | some _ ↦ ok (set m i none) ]
]

-- what a list or a queue holds, when it was created
unfoldable pub creada : {A : Type 0} → Option A → Resultado A
creada none = falla puntero_nulo
creada (some a) = ok a

-- `dependencia`
pub record Dependencia : Type 0 where
  pub hilo : Puntero
  pub dependiente : Puntero

-- The threads. `colas_ready_cmn` is the array `colas_prioridad`; `a_memoria` is what has been sent to
-- the memory module, oldest first; `tomado` is whether mutex_cola_ready_fifo_prioridades is locked.
pub record Hilos : Type 0 where
  pub tcbs : Heap Tcb
  pub lista_exec_hilo : Option (List Puntero)
  pub lista_bloq_hilo : Option (List Puntero)
  pub lista_dependencias : Option (List Dependencia)
  pub lista_thread_id : Option (List ℕ)
  pub cola_ready_fifo_prioridades : Option (List Puntero)
  pub colas_ready_cmn : List (Option (List Puntero))
  pub a_memoria : List (List ℕ)
  pub tomado : Bool

-- `Mutex`. Its cola_bloqueados is a block of the size of a queue that nothing initialises: it has
-- no value.
pub record Mutex : Type 0 where
  pub recurso : List ℕ
  pub tomado : Bool
  pub bloqueado : Bool
  pub hilo_actual : ℕ

-- `PCB`, as the kernel builds it.
pub record PcbKernel : Type 0 where
  pub pid : ℕ
  pub estado : ℕ
  pub tids : List ℕ
  pub mutex : List Mutex

-- a call of `crearProceso`
pub record Alta : Type 0 where
  pub archivo : List ℕ
  pub tamanio : ℕ
  pub prioridad : ℕ

-- The processes; `process_id` is the counter of their identifiers, and `sem_nuevoProceso` the value
-- of the semaphore; `esperando` are the calls that wait for it. The queues are those that `inicializar_colas` creates.
pub record Procesos : Type 0 where
  pub pcbs : Heap PcbKernel
  pub cola_new : List Puntero
  pub cola_ready : List Puntero
  pub cola_exec : List Puntero
  pub process_id : ℕ
  pub sem_nuevo_proceso : ℕ
  pub esperando : List Alta

pub record Kernel : Type 0 where
  pub hilos : Hilos
  pub procesos : Procesos

-- `estados_proceso`, by their numbers
abbrev pub estado_new : ℕ
estado_new = 0

abbrev pub estado_ready : ℕ
estado_ready = 1

abbrev pub estado_exec : ℕ
estado_exec = 2

abbrev pub estado_blocked : ℕ
estado_blocked = 3

abbrev pub estado_exit : ℕ
estado_exit = 4

-- `comparar_por_PID_y_TID`
unfoldable pub comparar_por_pid_y_tid : Heap Tcb → ℕ → ℕ → Puntero → Resultado Bool
unfolding cargar
comparar_por_pid_y_tid m pid tid p = do t ← cargar m p; ok ((t.pid == pid) && (t.tid == tid))

abbrev pub max_niveles_prioridad : ℕ
max_niveles_prioridad = 100

-- so many queues that were never created
unfoldable pub sin_crear : ℕ → List (Option (List Puntero))
sin_crear zero = []
sin_crear (suc n) = none ∷ sin_crear n

-- The kernel when `inicializar_colas` and `iniciador` have run: no other function creates a list or
-- a queue of threads, so all of them are NULL.
unfoldable pub kernel_inicial : Kernel
unfolding sin_crear
kernel_inicial = record {
  hilos = record {
    tcbs = [];
    lista_exec_hilo = none;
    lista_bloq_hilo = none;
    lista_dependencias = none;
    lista_thread_id = none;
    cola_ready_fifo_prioridades = none;
    colas_ready_cmn = sin_crear max_niveles_prioridad;
    a_memoria = [];
    tomado = false;
  };
  procesos = record {
    pcbs = [];
    cola_new = [];
    cola_ready = [];
    cola_exec = [];
    process_id = 0;
    sem_nuevo_proceso = 0;
    esperando = [];
  };
}
