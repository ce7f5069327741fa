-- ===== src/Pruebas.antt =====
-- Tests, and the theorems at concrete inputs, with dictionaries that are functions.
mod Particiones
mod Procesos
mod Servicio
mod Procesador
mod Mensajes
mod Colas
mod Nucleo
use so_tp_2c.Prelude.{
  ℕ, ◌≡◌, refl, sym, ap, ◌∙◌, true, false, Option, none, some, List, arith, inl, inr, Bool-cases,
  if◌then◌else◌,
}
use so_tp_2c.Commons.{DictApi}
use so_tp_2c.Comunes.Texto.{texto_eq, texto_eq_iff}

abbrev pub poner : {V : Type 0} → (List ℕ → Option V) → List ℕ → Option V → List ℕ → Option V
poner d k o j = if texto_eq k j then o else d j

pub poner-igual :
    {V : Type 0} (d : List ℕ → Option V) (k : List ℕ) (o : Option V) → poner d k o k ≡ o
poner-igual d k o = rw ((texto_eq_iff k k).1 refl) refl

pub poner-otro :
    {V : Type 0} (d : List ℕ → Option V) (k j : List ℕ) (o : Option V)
    → ¬ (k ≡ j)
    → poner d k o j ≡ d j
poner-otro d k j o ne = elim (Bool-cases (texto_eq k j)) [
  | inl e ↦ absurd (ne ((texto_eq_iff k j).0 e))
  | inr e ↦ rw e refl
]

-- The documented behaviour of the dictionaries can be met.
abbrev pub dict_api : (V : Type 0) → DictApi V
dict_api V = record {
  Dict = List ℕ → Option V;
  dictionary_create = λ k. none;
  dictionary_get = λ d k. d k;
  dictionary_put = λ d k v. poner d k (some v);
  dictionary_remove = λ d k. poner d k none;
  get_create = λ k. refl;
  get_put_same = λ d k v. poner-igual d k (some v);
  get_put_other = λ d k j v. poner-otro d k j (some v);
  get_remove_same = λ d k. poner-igual d k none;
  get_remove_other = λ d k j. poner-otro d k j none;
}
