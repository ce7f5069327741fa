-- ===== src/Pruebas/Procesos.antt =====
-- The processes of the memory module: the theorems at a memory with one process.
use so_tp_2c.Prelude.{
  ℕ, ◌≡◌, refl, true, none, some, List, [], ◌∷◌, arith, ◌==◌, get_elem?, if◌then◌else◌,
}
use so_tp_2c.Prelude.Resultado.{ok}
use so_tp_2c.Commons.{ListaApi, lista_api, DictApi}
use so_tp_2c.Comunes.Texto.{codes, itoa, snprintf_8}
use so_tp_2c.Memoria.Particiones.{Particion}
use so_tp_2c.Memoria.Pseudocodigo.{Archivos, obtener_instrucciones}
use so_tp_2c.Memoria.Pseudocodigo.Lineas.{Lineas, unir, no_vacias, obtener_instrucciones-unir}
use so_tp_2c.Memoria.Procesos.{
  Hilo, Proceso, Estado, get_proceso, get_hilo, crear_hilo, finalizar_hilo,
}
use so_tp_2c.Memoria.Procesos.Hilos.{hilo_nuevo, crear_hilo-get_hilo, finalizar_hilo-get_hilo}
use so_tp_2c.Memoria.Contexto.{
  ContextoCpu, obtener_instruccion_numero, obtener_contexto, actualizar_contexto,
}
use so_tp_2c.Memoria.Contexto.Leyes.{actualizar-obtener_contexto, crear_hilo-obtener_instruccion}
use so_tp_2c.Pruebas.{dict_api}

abbrev H : DictApi Hilo
H = dict_api Hilo

abbrev P : DictApi (Proceso H.Dict)
P = dict_api (Proceso H.Dict)

abbrev L : ListaApi Particion
L = lista_api Particion

abbrev I : ListaApi (List ℕ)
I = lista_api (List ℕ)

abbrev strdup : ℕ → List ℕ
strdup base = itoa base

-- The lines of a file: two instructions, with an empty line between them.
abbrev lineas : List (List ℕ)
lineas = codes "IO 9" ∷ [] ∷ codes "LOG 1" ∷ []

abbrev archivos : Archivos
archivos = record { fopen = λ nombre. some (unir lineas); strdup = λ linea. some linea }

abbrev hilo : Hilo
hilo = hilo_nuevo 7 0 (codes "a") (no_vacias lineas)

abbrev proceso : Proceso H.Dict
proceso = record {
  pid = 5;
  base = 16;
  limite = 32;
  hilos = H.dictionary_put H.dictionary_create (snprintf_8 7) hilo;
  archivo_pseudocodigo = codes "a";
}

abbrev memoria : Estado P.Dict
memoria = record {
  procesos = P.dictionary_put P.dictionary_create (snprintf_8 5) proceso;
  viva = true;
  particiones = record { tamanio = 32; estado = 1; base = 16 } ∷ [];
}

abbrev vacia : Estado P.Dict
vacia = record { procesos = P.dictionary_create; viva = true; particiones = [] }

hay_proceso : get_proceso H P L archivos memoria 5 ≡ some proceso
unfolding get_proceso
hay_proceso = P.get_put_same P.dictionary_create (snprintf_8 5) proceso

hay_hilo : get_hilo H P L archivos memoria 5 7 ≡ ok (some hilo)
unfolding get_hilo get_proceso
hay_hilo = ground (arith, hay_proceso, H.get_put_same H.dictionary_create (snprintf_8 7) hilo)

Lineas-lineas : Lineas lineas
Lineas-lineas = (
  (
    omega arith,
    omega arith,
    (omega arith, omega arith, (omega arith, omega arith, (omega arith, omega arith, tt))),
  ),
  omega arith,
  (
    tt,
    omega arith,
    (
      (
        omega arith,
        omega arith,
        (
          omega arith,
          omega arith,
          (omega arith, omega arith, (omega arith, omega arith, (omega arith, omega arith, tt))),
        ),
      ),
      omega arith,
      tt,
    ),
  ),
)

leidas : obtener_instrucciones archivos (codes "a") ≡ some (no_vacias lineas)
leidas = obtener_instrucciones-unir archivos (codes "a") lineas Lineas-lineas refl (λ linea. refl)

obtener_instrucciones-unir_example :
    obtener_instrucciones archivos (codes "a") ≡ some (no_vacias lineas)
obtener_instrucciones-unir_example =
    obtener_instrucciones-unir archivos (codes "a") lineas Lineas-lineas refl (λ linea. refl)

crear_hilo-get_hilo_example :
    ((crear_hilo H P L archivos memoria 5 8 (codes "a") 1).0 ≡ true)
    × (get_hilo H P L archivos (crear_hilo H P L archivos memoria 5 8 (codes "a") 1).1 5 7 ≡ (
        if 8 == 7
        then ok (some (hilo_nuevo 8 1 (codes "a") (no_vacias lineas)))
        else get_hilo H P L archivos memoria 5 7))
crear_hilo-get_hilo_example =
    crear_hilo-get_hilo H P L archivos memoria 5 8 1 7 (codes "a") proceso (no_vacias lineas)
      (omega arith) (omega arith) (omega arith) hay_proceso leidas

finalizar_hilo-get_hilo_example :
    (m' : Estado P.Dict) × (finalizar_hilo H P L archivos memoria 5 7 ≡ ok (true, m'))
    × (get_hilo H P L archivos m' 5 8
        ≡ (if 7 == 8 then ok none else get_hilo H P L archivos memoria 5 8))
finalizar_hilo-get_hilo_example =
    finalizar_hilo-get_hilo H P L archivos memoria 5 7 8 hilo (omega arith) (omega arith) hay_hilo

abbrev contexto : ContextoCpu
contexto = record { base = []; limite = 0; registros = record hilo.registro { ax = 9; pc = 3 } }

actualizar-obtener_contexto_example :
    (m' : Estado P.Dict) × (actualizar_contexto H P L I archivos strdup memoria 5 7 contexto
      ≡ ok (true, m'))
    × (obtener_contexto H P L I archivos strdup m' 5 7 ≡ (
        if 7 == 7
        then ok (
            some (record {
              base = strdup proceso.base;
              limite = proceso.limite;
              registros = contexto.registros;
            }))
        else obtener_contexto H P L I archivos strdup memoria 5 7))
actualizar-obtener_contexto_example =
    actualizar-obtener_contexto H P L I archivos strdup memoria 5 7 7 contexto proceso hilo
      (omega arith) (omega arith) hay_proceso hay_hilo

abbrev con_ocho : Estado P.Dict
con_ocho = (crear_hilo H P L archivos memoria 5 8 (codes "a") 1).1

crear_hilo-obtener_instruccion_example :
    obtener_instruccion_numero H P L I archivos strdup con_ocho 5 8 1
    ≡ ok (get_elem? (no_vacias lineas) 1)
crear_hilo-obtener_instruccion_example =
    crear_hilo-obtener_instruccion H P L I archivos strdup memoria 5 8 1 1 (codes "a") proceso
      lineas (omega arith) (omega arith) hay_proceso Lineas-lineas refl (λ linea. refl)
