-- ===== src/Commons.antt =====
-- The collections of so-commons, which the repository only links against: parameters of the model,
-- with the documented behaviour of the operations that the modules call.
use so_tp_2c.Prelude.{
  ℕ, zero, suc, ◌≡◌, refl, ap, if◌then◌else◌, Bool, true, false, Option, none, some, List, [], ◌∷◌,
  ◌++◌, length, get_elem?, set, remove_at,
}
use so_tp_2c.Prelude.Resultado.{Resultado, ok, ◌>>=◌}

-- The first member that meets the condition; those before it are tried.
abbrev pub primero_que : {A : Type 0} → List A → (A → Resultado Bool) → Resultado (Option A)
primero_que [] c = ok none
primero_que (x ∷ xs) c = do b ← c x; if b then ok (some x) else primero_que xs c

-- The list without it.
abbrev pub sin_primero_que : {A : Type 0} → List A → (A → Resultado Bool) → Resultado (List A)
sin_primero_que [] c = ok []
sin_primero_que (x ∷ xs) c = do
  b ← c x
  if b then ok xs else (do ys ← sin_primero_que xs c; ok (x ∷ ys))

abbrev pub insertar_en : {A : Type 0} → List A → ℕ → A → List A
insertar_en xs zero x = x ∷ xs
insertar_en [] (suc i) x = []
insertar_en (y ∷ xs) (suc i) x = y ∷ insertar_en xs i x

pub insertar_en-length :
    {A : Type 0} (xs ys : List A) (x : A) → insertar_en (xs ++ ys) (length xs) x ≡ xs ++ (x ∷ ys)
insertar_en-length [] ys x = refl
insertar_en-length (y ∷ xs) ys x = ap (◌∷◌ y) (insertar_en-length xs ys x)

-- `t_list`. A `none` of `list_add` stands for a negative result, and of `list_get` for NULL.
pub record ListaApi (A : Type 0) : Type 0 where
  pub list_add : List A → A → Option (List A)
  pub list_get : List A → ℕ → Option A
  -- `list_remove`, and `list_remove_and_destroy_element` apart from its destroyer
  pub list_remove : List A → ℕ → List A
  pub list_replace : List A → ℕ → A → List A
  pub list_add_in_index : List A → ℕ → A → List A
  pub list_size : List A → ℕ
  pub list_is_empty : List A → Bool
  -- The condition reads through its argument, so it can fail.
  pub list_find : List A → (A → Resultado Bool) → Resultado (Option A)
  -- what is left of the list
  pub list_remove_by_condition : List A → (A → Resultado Bool) → Resultado (List A)
  pub list_add_appends : (xs : List A) (x : A) → list_add xs x ≡ some (xs ++ (x ∷ []))
  pub list_get_reads : (xs : List A) (i : ℕ) → list_get xs i ≡ get_elem? xs i
  pub list_remove_drops : (xs : List A) (i : ℕ) → list_remove xs i ≡ remove_at xs i
  pub list_replace_sets : (xs : List A) (i : ℕ) (x : A) → list_replace xs i x ≡ set xs i x
  pub list_add_in_index_inserts :
      (xs ys : List A) (x : A) → list_add_in_index (xs ++ ys) (length xs) x ≡ xs ++ (x ∷ ys)
  pub list_is_empty_nil : list_is_empty [] ≡ true
  pub list_is_empty_cons : (x : A) (xs : List A) → list_is_empty (x ∷ xs) ≡ false
  pub list_size_counts : (xs : List A) → list_size xs ≡ length xs
  pub list_find_first : (xs : List A) (c : A → Resultado Bool) → list_find xs c ≡ primero_que xs c
  pub list_remove_first :
      (xs : List A) (c : A → Resultado Bool) → list_remove_by_condition xs c ≡ sin_primero_que xs c

abbrev pub es_nil : {A : Type 0} → List A → Bool
es_nil [] = true
es_nil (x ∷ xs) = false

-- The documented behaviour can be met.
abbrev pub lista_api : (A : Type 0) → ListaApi A
lista_api A = record {
  list_add = λ xs x. some (xs ++ (x ∷ []));
  list_get = get_elem?;
  list_remove = remove_at;
  list_replace = set;
  list_add_in_index = insertar_en;
  list_size = length;
  list_is_empty = es_nil;
  list_find = primero_que;
  list_remove_by_condition = sin_primero_que;
  list_add_appends = λ xs x. refl;
  list_get_reads = λ xs i. refl;
  list_remove_drops = λ xs i. refl;
  list_replace_sets = λ xs i x. refl;
  list_add_in_index_inserts = insertar_en-length;
  list_size_counts = λ xs. refl;
  list_is_empty_nil = refl;
  list_is_empty_cons = λ x xs. refl;
  list_find_first = λ xs c. refl;
  list_remove_first = λ xs c. refl;
}

-- `t_dictionary`, whose keys are texts: lists of character codes.
pub record DictApi (V : Type 0) : Type 1 where
  pub Dict : Type 0
  pub dictionary_create : Dict
  pub dictionary_get : Dict → List ℕ → Option V
  pub dictionary_put : Dict → List ℕ → V → Dict
  pub dictionary_remove : Dict → List ℕ → Dict
  pub get_create : (k : List ℕ) → dictionary_get dictionary_create k ≡ none
  pub get_put_same :
      (d : Dict) (k : List ℕ) (v : V) → dictionary_get (dictionary_put d k v) k ≡ some v
  pub get_put_other :
      (d : Dict) (k j : List ℕ) (v : V)
      → ¬ (k ≡ j)
      → dictionary_get (dictionary_put d k v) j ≡ dictionary_get d j
  pub get_remove_same : (d : Dict) (k : List ℕ) → dictionary_get (dictionary_remove d k) k ≡ none
  pub get_remove_other :
      (d : Dict) (k j : List ℕ)
      → ¬ (k ≡ j)
      → dictionary_get (dictionary_remove d k) j ≡ dictionary_get d j

-- `t_queue`. The second part of `queue_pop` is the queue after it.
pub record ColaApi (A : Type 0) : Type 0 where
  pub queue_create : List A
  pub queue_push : List A → A → List A
  pub queue_pop : List A → Option A × List A
  pub queue_is_empty : List A → Bool
  pub queue_size : List A → ℕ
  pub queue_peek : List A → Option A
  pub create_empty : queue_create ≡ []
  pub push_appends : (xs : List A) (x : A) → queue_push xs x ≡ xs ++ (x ∷ [])
  pub pop_nil : queue_pop [] ≡ (none, [])
  pub pop_cons : (x : A) (xs : List A) → queue_pop (x ∷ xs) ≡ (some x, xs)
  pub is_empty_nil : queue_is_empty [] ≡ true
  pub is_empty_cons : (x : A) (xs : List A) → queue_is_empty (x ∷ xs) ≡ false
  pub peek_nil : queue_peek [] ≡ none
  pub peek_cons : (x : A) (xs : List A) → queue_peek (x ∷ xs) ≡ some x
  pub size_counts : (xs : List A) → queue_size xs ≡ length xs

abbrev pub sacar : {A : Type 0} → List A → Option A × List A
sacar [] = (none, [])
sacar (x ∷ xs) = (some x, xs)

abbrev pub cola_api : (A : Type 0) → ColaApi A
cola_api A = record {
  queue_create = [];
  queue_push = λ xs x. xs ++ (x ∷ []);
  queue_pop = sacar;
  queue_is_empty = es_nil;
  queue_size = length;
  queue_peek = λ xs. (sacar xs).0;
  create_empty = refl;
  push_appends = λ xs x. refl;
  pop_nil = refl;
  pop_cons = λ x xs. refl;
  is_empty_nil = refl;
  is_empty_cons = λ x xs. refl;
  peek_nil = refl;
  peek_cons = λ x xs. refl;
  size_counts = λ xs. refl;
}

-- The collections of every type at once.
pub record CommonsApi : Type 1 where
  pub lista : (A : Type 0) → ListaApi A
  pub cola : (A : Type 0) → ColaApi A

abbrev pub commons_api : CommonsApi
commons_api = record { lista = lista_api; cola = cola_api }
