-- ===== src/Comunes/Serializar/Pcb.antt =====
-- `SerializarPCB` and `DeserializarPCB` of utils/src/commons.c, which leave the state of the process
-- out. The members of the two lists travel as words of 32 bits.
use so_tp_2c.Prelude.{
  ℕ, zero, suc, ◌+◌, ◌*◌, ◌^◌, ◌≤◌, ◌<◌, ◌≡◌, refl, subst, ◌∙◌, some, List, [], ◌∷◌, ◌++◌, arith,
  length, length-append, append_assoc, drop,
}
use so_tp_2c.Prelude.Resultado.{Resultado, ok, ◌>>=◌}
use so_tp_2c.Comunes.Bytes.{le32}
use so_tp_2c.Comunes.Buffer.{Buffer, buffer_create, buffer_read_uint32}
use so_tp_2c.Comunes.Buffer.Leyes.{Ante, avanzado, buffer_read_uint32-Ante}
use so_tp_2c.Comunes.Serializar.{escribir_palabras}
use so_tp_2c.Comunes.Serializar.Escritura.{bytes_de, SonPalabras, escribir_palabras_lem}

pub record Pcb : Type 0 where
  pub pid : ℕ
  pub estado : ℕ
  pub tids : List ℕ
  pub mutex : List ℕ

-- The words in the order of the writes.
abbrev palabras_pcb : Pcb → List ℕ
palabras_pcb p = p.pid ∷ length p.tids ∷ (p.tids ++ (length p.mutex ∷ p.mutex))

-- The writes go to `size`, which counts what has been written; `inicial` is what `malloc` left in the
-- offset.
unfoldable pub serializar_pcb : List ℕ → ℕ → Pcb → Resultado Buffer
unfolding escribir_palabras
serializar_pcb bloque inicial p = do
  b ← escribir_palabras (buffer_create bloque) (palabras_pcb p)
  ok (record { size = some b.offset; offset = inicial; stream = b.stream })

-- The two loops.
unfoldable pub leer_palabras : ℕ → Buffer → Resultado (List ℕ × Buffer)
unfolding buffer_read_uint32
leer_palabras zero b = ok ([], b)
leer_palabras (suc n) b = do
  (palabra, b1) ← buffer_read_uint32 b
  (resto, b2) ← leer_palabras n b1
  ok (palabra ∷ resto, b2)

-- The reads have an offset of their own, from 0 on. `estado` is what `malloc` left in that field.
unfoldable pub deserializar_pcb : ℕ → Buffer → Resultado Pcb
unfolding leer_palabras buffer_read_uint32
deserializar_pcb estado b = do
  (pid, b1) ← buffer_read_uint32 (record b { offset = 0 })
  (tid_count, b2) ← buffer_read_uint32 b1
  (tids, b3) ← leer_palabras tid_count b2
  (mutex_count, b4) ← buffer_read_uint32 b3
  (mutex, b5) ← leer_palabras mutex_count b4
  ok (record { pid = pid; estado = estado; tids = tids; mutex = mutex })

leer_una :
    (b : Buffer) (n : ℕ) (xs : List ℕ)
    → n < 2 ^ 32
    → Ante b (le32 n ++ xs)
    → (b1 : Buffer) × (buffer_read_uint32 b ≡ ok (n, b1)) × Ante b1 xs
leer_una b n xs h v = let (e, v1) = buffer_read_uint32-Ante b n xs h v in (avanzado b 4, e, v1)

leer_palabras-Ante :
    (ns : List ℕ) (b : Buffer) (xs : List ℕ)
    → SonPalabras ns
    → Ante b (bytes_de ns ++ xs)
    → (b1 : Buffer) × (leer_palabras (length ns) b ≡ ok (ns, b1)) × Ante b1 xs
unfolding leer_palabras bytes_de SonPalabras
leer_palabras-Ante [] b xs h v = (b, refl, v)
leer_palabras-Ante (n ∷ ns) b xs (h, hs) v =
    let (b1, e1, v1) =
      leer_una b n (bytes_de ns ++ xs) h
        (subst (Ante b) (append_assoc (le32 n) (bytes_de ns) xs) v) in
    let (b2, e2, v2) = leer_palabras-Ante ns b1 xs hs v1 in (b2, ground (arith, e1, e2), v2)

bytes_de-append : (ms ns : List ℕ) → bytes_de (ms ++ ns) ≡ bytes_de ms ++ bytes_de ns
unfolding bytes_de
bytes_de-append [] ns = refl
bytes_de-append (m ∷ ms) ns =
    ground (arith, bytes_de-append ms ns, append_assoc (le32 m) (bytes_de ms) (bytes_de ns))

-- The words of a process, one part after the other.
partes :
    (p : Pcb) (resto : List ℕ)
    → bytes_de (palabras_pcb p) ++ resto
      ≡ le32 p.pid
        ++ (le32 (length p.tids)
            ++ (bytes_de p.tids ++ (le32 (length p.mutex) ++ (bytes_de p.mutex ++ resto))))
unfolding bytes_de
partes p resto = ground (
  arith,
  bytes_de-append p.tids (length p.mutex ∷ p.mutex),
  append_assoc (le32 p.pid)
      (le32 (length p.tids) ++ (bytes_de p.tids ++ (le32 (length p.mutex) ++ bytes_de p.mutex)))
      resto,
  append_assoc (le32 (length p.tids))
      (bytes_de p.tids ++ (le32 (length p.mutex) ++ bytes_de p.mutex)) resto,
  append_assoc (bytes_de p.tids) (le32 (length p.mutex) ++ bytes_de p.mutex) resto,
  append_assoc (le32 (length p.mutex)) (bytes_de p.mutex) resto,
)

-- The process that is read from a block that starts with its words.
deserializar_pcb_lem :
    (b : Buffer) (p : Pcb) (estado : ℕ) (resto : List ℕ)
    → b.stream ≡ bytes_de (palabras_pcb p) ++ resto
    → p.pid < 2 ^ 32
    → length p.tids < 2 ^ 32
    → length p.mutex < 2 ^ 32
    → SonPalabras p.tids
    → SonPalabras p.mutex
    → deserializar_pcb estado b ≡ ok (record p { estado = estado })
unfolding deserializar_pcb
deserializar_pcb_lem b p estado resto bloque hp hlt hlm ht hm =
    let v : Ante (record b { offset = 0 }) _ = record {
      antes = [];
      bloque = bloque ∙ partes p resto;
      en = refl;
    } in
    let (b1, e1, v1) = leer_una (record b { offset = 0 }) p.pid _ hp v in
    let (b2, e2, v2) = leer_una b1 (length p.tids) _ hlt v1 in
    let (b3, e3, v3) = leer_palabras-Ante p.tids b2 _ ht v2 in
    let (b4, e4, v4) = leer_una b3 (length p.mutex) _ hlm v3 in
    let (b5, e5, v5) = leer_palabras-Ante p.mutex b4 resto hm v4 in
    ground (arith, e1, e2, e3, e4, e5)

length-palabras_pcb : (p : Pcb) → length (palabras_pcb p) ≡ 3 + length p.tids + length p.mutex
length-palabras_pcb p = omega (arith, length-append p.tids (length p.mutex ∷ p.mutex))

-- SerializarPCB writes a process whose words fit its block of 1024 bytes, and DeserializarPCB reads
-- the identifier, the threads and the mutexes back in their order; the state is not sent. The words
-- have 32 bits.
pub deserializar-serializar_pcb :
    (p : Pcb) (bloque : List ℕ) (inicial estado : ℕ)
    → length bloque ≡ 1024
    → 4 * (3 + length p.tids + length p.mutex) ≤ 1024
    → p.pid < 2 ^ 32
    → SonPalabras p.tids
    → SonPalabras p.mutex
    → (b : Buffer) × (serializar_pcb bloque inicial p ≡ ok b)
      × (b.size ≡ some (4 * (3 + length p.tids + length p.mutex)))
      × (deserializar_pcb estado b ≡ ok (record p { estado = estado }))
unfolding serializar_pcb
deserializar-serializar_pcb p bloque inicial estado h cabe hp ht hm = (
  record {
    size = some (4 * (3 + length p.tids + length p.mutex));
    offset = inicial;
    stream = bytes_de (palabras_pcb p) ++ drop (4 * length (palabras_pcb p)) bloque;
  },
  ground (
    arith,
    length-palabras_pcb p,
    escribir_palabras_lem (buffer_create bloque) (palabras_pcb p) [] bloque refl refl
        (omega (arith, h, cabe, length-palabras_pcb p)),
  ),
  refl,
  deserializar_pcb_lem _ p estado _ refl hp (omega (arith, cabe)) (omega (arith, cabe)) ht hm,
)
