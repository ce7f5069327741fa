-- ===== src/Pruebas/Servicio.antt =====
-- What the memory module makes of the bytes of the CPU: the theorems at a memory with one process.
use so_tp_2c.Prelude.{some, none, ℕ, true, List, [], ◌∷◌}
use so_tp_2c.Commons.{DictApi}
use so_tp_2c.Comunes.Texto.{codes, snprintf_8}
use so_tp_2c.Comunes.Serializar.{Tcb}
use so_tp_2c.Memoria.Pseudocodigo.{Archivos}
use so_tp_2c.Memoria.Procesos.{Hilo, Proceso, Estado}
use so_tp_2c.Memoria.Procesos.Hilos.{hilo_nuevo}
use so_tp_2c.Pruebas.{dict_api}
use so_tp_2c.Pruebas.Nucleo.{ceros}

abbrev H : DictApi Hilo
H = dict_api Hilo

abbrev P : DictApi (Proceso H.Dict)
P = dict_api (Proceso H.Dict)

abbrev sin_archivos : Archivos
sin_archivos = record { fopen = λ n. none; strdup = λ linea. some linea }

abbrev proceso : Proceso H.Dict
proceso = record {
  pid = 5;
  base = 16;
  limite = 32;
  hilos =
      H.dictionary_put H.dictionary_create (snprintf_8 7)
        (hilo_nuevo 7 0 (codes "a") (codes "LOG AX" ∷ []));
  archivo_pseudocodigo = codes "a";
}

abbrev memoria : Estado P.Dict
memoria = record {
  procesos = P.dictionary_put P.dictionary_create (snprintf_8 5) proceso;
  viva = true;
  particiones = record { tamanio = 32; estado = 1; base = 16 } ∷ [];
}

-- the request of the context of the thread 7 of the process 5, with one byte for the operation
abbrev entrada : List ℕ
entrada = 8 ∷ 0 ∷ 0 ∷ 0 ∷ 5 ∷ 0 ∷ 0 ∷ 0 ∷ 7 ∷ 0 ∷ 0 ∷ 0 ∷ []

-- the size 56, the text "16" after its length, the limit 32, and the registers
abbrev enviado : List ℕ
enviado = 56 ∷ 0 ∷ 0 ∷ 0 ∷ 2 ∷ 0 ∷ 0 ∷ 0 ∷ 49 ∷ 54 ∷ 32 ∷ 0 ∷ 0 ∷ 0 ∷ ceros 46

abbrev tcb : Tcb
tcb = record { pid = 258; tid = 3; prioridad = 0; estado = 0 }
