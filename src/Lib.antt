-- ===== src/Lib.antt =====
-- Verification library of SO-TP-2C2024, a distributed simulation of an operating system. Its modules
-- are programs that talk over sockets: the kernel (kernel/src) plans threads, the CPU (cpu/src)
-- fetches, decodes and executes their instructions, the memory (memoria/src) keeps the partitions of
-- user memory, the processes with their threads and instructions, and the execution contexts, and
-- the file system (filesystem/src) is empty. utils/src holds the buffers, the serialisation and the
-- sockets that they share.
--
-- The kernel asks the memory to create and end processes and threads, and hands a thread to the CPU
-- as a serialised TCB. The CPU asks the memory for the context and, in each round of its cycle, for
-- an instruction, and sends back to the kernel the buffer of what the instructions reported.
--
--   Prelude          shared names, the native tests, lists; Prelude/Resultado: what a C function does
--                    besides returning, `exit(EXIT_FAILURE)` and undefined behaviour, as values
--   Commons          lists, dictionaries and queues of so-commons, which is not in the repository:
--                    records of operations and documented laws, arguments of all that uses them;
--                    `CommonsApi` has those that the kernel calls
--   Comunes          utils/src. Texto: the C texts and conversions that the code calls (atoi,
--                    snprintf with 8 characters, strtok on spaces); Bytes: words in memory; Buffer:
--                    `t_buffer` (Escritor: a sequence of writes); Serializar: SerializarTCB and its
--                    kin; Red: EnviarOperacion, RecibirBuffer, recibir_paquete, handshake_Server
--   Memoria          memoria/src. Particiones: first_fit to worst_fit_din, gestionar_particiones,
--                    liberar_memoria; Procesos: crear_proceso to finalizar_hilo; Pseudocodigo:
--                    obtener_instrucciones; Peticiones: manejar_peticion, the fields that it reads
--                    and enviar_estado; Contexto: the operations of manejar_cpu.c, with
--                    Contexto/Mensajes, a context as bytes, and Contexto/Servicio, a round of
--                    hilo_instrucciones_cpu on the bytes of its connection
--   Cpu              cpu/src. Registros, Mmu, Instruccion (parsearInstruccion), Ejecucion
--                    (executeInstruccion), Ciclo (EjecutarProceso), Conexion (conexion_memoria.c and
--                    fetchInstruccion), Servidor (ServerCPU)
--   Kernel           kernel/src. Estado: the globals; Colas: the searches in the queues of main.c on
--                    values, and Colas/Prioridad: where each algorithm puts threads; Hilos: the lists
--                    of threads, agregarHiloAReady and liberar_tcb, with Hilos/Buscar (buscarHilo and
--                    what it calls) and Hilos/Vida (crear_hilo, finalizar_hilo, get_next_thread);
--                    Procesos: crearProceso and finalizarProceso; Pedidos: the requests to the memory, and
--                    Pedidos/Paquete, what the memory gets of one;
--                    Interpretar: interpretarCPU; Planificador: the rounds of the short-term planner;
--                    Pasos: all that changes the kernel, as a relation between its states
--   Pruebas          tests, and the theorems at concrete inputs
--
-- Names are those of the code in snake_case. A function that changes global state takes the state and
-- returns it. A pointer into user memory is its distance from `memoria_usuario`, and NULL is `none`.
-- Registers are words of 32 bits, `% 2 ^ 32`; `int` values that the code never makes negative
-- (identifiers, sizes) are natural numbers.
--
-- In the kernel a pointer to a TCB or a PCB is a place in a heap, where `free` leaves a hole, and a list
-- or queue that was never created is NULL. A call of crearProceso that waits at its semaphore is kept in
-- the state. A connection is the list of the bytes that arrive.
--
-- Fuel: `leer_lineas` runs on the number of bytes of the file, since each round reads one or more;
-- the loops over a queue on its size, since each round takes a member out; `buscar_dependiente` on the
-- size of the list of dependencies and `agregar_hilo_a_ready` on any number, of which one more than the
-- dependencies is enough, since each call takes one out; `atender` of Cpu/Servidor on any number, of
-- which one more than the bytes that arrive is enough, since each message takes four or more.
-- `cerrar_hilos` runs on any number. The cycle of the CPU has no bound of its own: `ejecutar_ciclos`
-- runs on any number of rounds, and one more than those before the interruption flag is read as set is
-- enough. Fuel used up is `none`, or the value `sin_fin` of `Falla`.
--
-- Not modelled: threads, mutexes and their interleavings, except that the interruption flag may
-- change at each read of it, that the steps of the kernel come in any order, and that the planner may
-- wait for mutex_cola_ready_fifo_prioridades; the start of threads; sockets beyond the bytes that pass;
-- logs, but for the pointers and unset variables that they read; configuration files; the waiting time of IO;
-- recibirTCBCPU, InterrumpirCPU and obtenerDatosMemoria, which nothing calls; and what malloc does when
-- it has no room left, but for a negative size. `bufferRetorno` is a list of fields while the
-- instructions run, and ServerCPU writes them into its block, of size 0, when the cycle ends.
pub mod Commons
pub mod Comunes
pub mod Cpu
pub mod Kernel
pub mod Memoria
pub mod Prelude
pub mod Pruebas
