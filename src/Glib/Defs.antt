-- ===== src/Glib/Defs.antt =====
-- The parts of GLib that the program calls: `GHashTable` as an interface, `GPtrArray` and `GArray`
-- as lists.

use gonggo.Base.{ℕ, zero, suc, ◌≡◌, true, Option, none, some, List, [], ◌∷◌}
use gonggo.Base.{Eq, ◌==◌, if◌then◌else◌, distinct}

-- The first entry of a key.
abbrev pub find_entry : {K V : Type 0} ⦃e : Eq K⦄ → List (K × V) → K → Option V
find_entry [] k = none
find_entry ((j, v) ∷ xs) k = if j == k then some v else find_entry xs k

abbrev pub keys : {K V : Type 0} → List (K × V) → List K
keys [] = []
keys ((k, v) ∷ xs) = k ∷ keys xs

-- `GHashTable`. `entries` is the order in which an iterator visits, which GLib leaves open.
pub record Glib : Type 1 where
  pub Table : Type 0 → Type 0 → Type 0
  pub new : {K V : Type 0} → Table K V
  pub lookup : {K V : Type 0} ⦃e : Eq K⦄ → Table K V → K → Option V
  pub insert : {K V : Type 0} ⦃e : Eq K⦄ → Table K V → K → V → Table K V
  pub remove : {K V : Type 0} ⦃e : Eq K⦄ → Table K V → K → Table K V
  pub entries : {K V : Type 0} ⦃e : Eq K⦄ → Table K V → List (K × V)
  pub lookup-new : {K V : Type 0} ⦃e : Eq K⦄ → (k : K) → lookup (new {K = K} {V = V}) k ≡ none
  pub lookup-insert :
      {K V : Type 0} ⦃e : Eq K⦄
      → (t : Table K V) (k : K) (v : V) (j : K)
      → lookup (insert t k v) j ≡ (if k == j then some v else lookup t j)
  pub lookup-remove :
      {K V : Type 0} ⦃e : Eq K⦄
      → (t : Table K V) (k j : K) → lookup (remove t k) j ≡ (if k == j then none else lookup t j)
  pub lookup-entries :
      {K V : Type 0} ⦃e : Eq K⦄ → (t : Table K V) (k : K) → lookup t k ≡ find_entry (entries t) k
  pub distinct-entries :
      {K V : Type 0} ⦃e : Eq K⦄ → (t : Table K V) → distinct (keys (entries t)) ≡ true

-- `g_ptr_array_find_with_equal_func` with `str_equal`: the first index.
module _ {A : Type 0} ⦃e : Eq A⦄ where
  unfoldable pub find_index : List A → A → Option ℕ
  find_index [] a = none
  find_index (x ∷ xs) a =
      if x == a then some 0 else elim (find_index xs a) [ none ↦ none | some i ↦ some (suc i) ]

-- `g_ptr_array_remove_index` and `g_array_remove_index`: later elements move down.
module _ {A : Type 0} where
  unfoldable pub remove_index : List A → ℕ → List A
  remove_index [] i = []
  remove_index (x ∷ xs) zero = xs
  remove_index (x ∷ xs) (suc i) = x ∷ remove_index xs i
