-- ===== src/Kernel/Pasos/Invariantes/Atascado.antt =====
-- The long-term planner as a state machine: what stays true of its queues.
use so_tp_2c.Prelude.{
  ℕ, zero, suc, ◌+◌, ◌≡◌, refl, sym, subst, length, ◌∙◌, false, List, [], ◌∷◌, ◌++◌, some, arith,
}
use so_tp_2c.Prelude.Resultado.{ok}
use so_tp_2c.Commons.{CommonsApi}
use so_tp_2c.Kernel.Estado.{Puntero, Procesos, Kernel, Alta}
use so_tp_2c.Kernel.Hilos.{push}
use so_tp_2c.Kernel.Hilos.Vida.{Entorno}
use so_tp_2c.Kernel.Procesos.{crear_pcb, admitir, crear_proceso, reanudar_con, reanudar}
use so_tp_2c.Kernel.Pasos.{Alcanza}
use so_tp_2c.Kernel.Pasos.Invariantes.{Conservada, Alcanza-Conservada}

-- No process is in cola_exec.
abbrev pub SinExec : Procesos → Type 0
SinExec ps = ps.cola_exec ≡ []

-- Nor is there a permit for a waiting call.
abbrev SinPermiso : Procesos → Type 0
SinPermiso ps = (ps.cola_exec ≡ []) × (ps.sem_nuevo_proceso ≡ 0)

-- Some process is in cola_new, none in cola_exec, and `ready` is cola_ready.
pub record Atascado (C : CommonsApi) (ready : List Puntero) (ps : Procesos) : Type 0 where
  pub sin_exec : ps.cola_exec ≡ []
  pub llena : (C.cola Puntero).queue_is_empty ps.cola_new ≡ false
  pub igual : ps.cola_ready ≡ ready

module _ (C : CommonsApi) where
  igual_a :
      {ready : List Puntero} (k l : Kernel)
      → Atascado C ready k.procesos
      → l ≡ k
      → Atascado C ready l.procesos
  igual_a {ready} k l j h = subst (λ x. Atascado C ready x.procesos) (sym h) j

  pub push-no_vacia :
      (ps : List Puntero) (p : Puntero) → (C.cola Puntero).queue_is_empty (push C ps p) ≡ false
  push-no_vacia [] p =
      ground (arith, (C.cola Puntero).push_appends [] p, (C.cola Puntero).is_empty_cons p [])
  push-no_vacia (q ∷ ps) p = ground (
    arith,
    (C.cola Puntero).push_appends (q ∷ ps) p,
    (C.cola Puntero).is_empty_cons q (ps ++ (p ∷ [])),
  )

  -- With a process in cola_new, a new one only goes behind it.
  pub crear_proceso-encola :
      (e : Entorno) (k : Kernel) (a : Alta)
      → (C.cola Puntero).queue_is_empty k.procesos.cola_new ≡ false
      → crear_proceso C e k a
        ≡ ok (record k {
          procesos = record k.procesos {
            pcbs = (crear_pcb k.procesos).1.pcbs;
            process_id = k.procesos.process_id + 1;
            cola_new = push C k.procesos.cola_new (crear_pcb k.procesos).0;
          };
        })
  unfolding crear_proceso crear_pcb
  crear_proceso-encola e k a h = ground (arith, h)

  crear_proceso-Atascado :
      (ready : List Puntero) (e : Entorno) (k l : Kernel) (a : Alta)
      → Atascado C ready k.procesos
      → crear_proceso C e k a ≡ ok l
      → Atascado C ready l.procesos
  unfolding crear_pcb
  crear_proceso-Atascado ready e k l a j h = record {
    sin_exec = ground (arith, h, crear_proceso-encola e k a j.llena, j.sin_exec);
    llena = ground (
      arith,
      h,
      crear_proceso-encola e k a j.llena,
      push-no_vacia k.procesos.cola_new (some (length k.procesos.pcbs)),
    );
    igual = ground (arith, h, crear_proceso-encola e k a j.llena, j.igual);
  }

  admitir-intactos :
      (e : Entorno) (k l : Kernel) (p : Puntero) (a : Alta)
      → admitir C e k p a ≡ ok l
      → (l.procesos.cola_exec ≡ k.procesos.cola_exec)
        × (l.procesos.sem_nuevo_proceso ≡ k.procesos.sem_nuevo_proceso)
        × (l.procesos.esperando ≡ k.procesos.esperando)
  unfolding admitir
  admitir-intactos e k l p a h = (ground (arith, h), ground (arith, h), ground (arith, h))

  crear_proceso-cola_exec :
      (e : Entorno) (k l : Kernel) (a : Alta)
      → crear_proceso C e k a ≡ ok l
      → l.procesos.cola_exec ≡ k.procesos.cola_exec
  unfolding crear_proceso crear_pcb
  crear_proceso-cola_exec e k l a h = grind (arith, h, admitir-intactos)

  crear_proceso-sem :
      (e : Entorno) (k l : Kernel) (a : Alta)
      → crear_proceso C e k a ≡ ok l
      → l.procesos.sem_nuevo_proceso ≡ k.procesos.sem_nuevo_proceso
  unfolding crear_proceso crear_pcb
  crear_proceso-sem e k l a h = grind (arith, h, admitir-intactos)

  reanudar_con-cola_exec :
      (e : Entorno) (k l : Kernel) (n : ℕ) (altas : List Alta)
      → reanudar_con C e k n altas ≡ ok l
      → l.procesos.cola_exec ≡ k.procesos.cola_exec
  unfolding reanudar_con
  reanudar_con-cola_exec e k l zero altas h = ground (arith, h)
  reanudar_con-cola_exec e k l (suc n) [] h = ground (arith, h)
  reanudar_con-cola_exec e k l (suc n) (a ∷ altas) h = crear_proceso-cola_exec e _ l a h

  SinExec-Conservada : Conservada C SinExec
  SinExec-Conservada = record {
    vacia = λ v. v;
    con_alta = λ e k l a v h. crear_proceso-cola_exec e k l a h ∙ v;
    con_permiso = λ e k l v h. reanudar_con-cola_exec e k l _ _ h ∙ v;
  }

  -- From a state with no process in cola_exec, whatever the kernel does, it never has one there: no
  -- step puts a process into that queue.
  pub Alcanza-SinExec : {k l : Kernel} → SinExec k.procesos → Alcanza C k l → SinExec l.procesos
  Alcanza-SinExec = Alcanza-Conservada C SinExec SinExec-Conservada

  reanudar_con-Atascado :
      (ready : List Puntero) (e : Entorno) (k l : Kernel) (n : ℕ) (altas : List Alta)
      → Atascado C ready k.procesos
      → reanudar_con C e k n altas ≡ ok l
      → Atascado C ready l.procesos
  unfolding reanudar_con
  reanudar_con-Atascado ready e k l zero altas j h = igual_a k l j (ground (arith, h))
  reanudar_con-Atascado ready e k l (suc n) [] j h = igual_a k l j (ground (arith, h))
  reanudar_con-Atascado ready e k l (suc n) (a ∷ altas) j h =
      crear_proceso-Atascado ready e _ l a
        (record { sin_exec = j.sin_exec; llena = j.llena; igual = j.igual }) h

  Atascado-Conservada : (ready : List Puntero) → Conservada C (Atascado C ready)
  Atascado-Conservada ready = record {
    vacia = λ j. j.sin_exec;
    con_alta = λ e k l a j h. crear_proceso-Atascado ready e k l a j h;
    con_permiso = λ e k l j h. reanudar_con-Atascado ready e k l _ _ j h;
  }

  -- From a state with a process in cola_new and none in cola_exec, whatever the kernel does, no process
  -- ever joins or leaves cola_ready again, and cola_new is never empty again: crearProceso only looks at
  -- the memory when cola_new is empty, and nothing else takes a process out of it.
  pub Alcanza-cola_ready :
      (k l : Kernel)
      → k.procesos.cola_exec ≡ []
      → (C.cola Puntero).queue_is_empty k.procesos.cola_new ≡ false
      → Alcanza C k l
      → (l.procesos.cola_ready ≡ k.procesos.cola_ready)
        × ((C.cola Puntero).queue_is_empty l.procesos.cola_new ≡ false)
  Alcanza-cola_ready k l v n r =
      let j =
        Alcanza-Conservada C (Atascado C k.procesos.cola_ready)
          (Atascado-Conservada k.procesos.cola_ready)
          (record { sin_exec = v; llena = n; igual = refl }) r in
      (j.igual, j.llena)

  reanudar_con-SinPermiso :
      (e : Entorno) (k l : Kernel) (n : ℕ) (altas : List Alta)
      → n ≡ 0
      → reanudar_con C e k n altas ≡ ok l
      → l ≡ k
  unfolding reanudar_con
  reanudar_con-SinPermiso e k l zero altas hn h = ground (arith, h)
  reanudar_con-SinPermiso e k l (suc n) altas hn h = ground (arith, hn)

  SinPermiso-Conservada : Conservada C SinPermiso
  SinPermiso-Conservada = record {
    vacia = λ j. j.0;
    con_alta =
        λ e k l a j h. (crear_proceso-cola_exec e k l a h ∙ j.0, crear_proceso-sem e k l a h ∙ j.1);
    con_permiso = λ e k l j h.
        subst (λ x. SinPermiso x.procesos) (sym (reanudar_con-SinPermiso e k l _ _ (j.1) h)) j;
  }

  -- From a state with no process in cola_exec and the semaphore of new processes at 0, whatever the
  -- kernel does, the semaphore stays at 0 and a call of crearProceso that waits for it never goes on.
  pub Alcanza-SinPermiso :
      (k l : Kernel) (e : Entorno)
      → k.procesos.cola_exec ≡ []
      → k.procesos.sem_nuevo_proceso ≡ 0
      → Alcanza C k l
      → (l.procesos.sem_nuevo_proceso ≡ 0) × (reanudar C e l ≡ ok l)
  unfolding reanudar_con
  Alcanza-SinPermiso k l e v n r =
      let j = Alcanza-Conservada C SinPermiso SinPermiso-Conservada {k = k} {l = l} (v, n) r in
      (j.1, ground (arith, j.1))
