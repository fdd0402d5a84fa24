-- ===== src/Glib/Arrays.antt =====
-- Searches in an array and removals from it.
use gonggo.Base.{
  ℕ, zero, suc, ◌+◌, ◌≡◌, refl, true, false, none, some, List, [], ◌∷◌, ◌++◌, arith, ltb, ◌≢◌,
  length,
}
use gonggo.Base.{Eq, ◌==◌, if◌then◌else◌, contains, distinct, contains-append}
use gonggo.Glib.Defs.{find_entry, keys, find_index, remove_index}

module _ {A : Type 0} ⦃e : Eq A⦄ where
  pub contains-find_index :
      (a : A) (xs : List A)
      → contains a xs ≡ elim (find_index xs a) [ none ↦ false | some _ ↦ true ]
  unfolding find_index
  contains-find_index a [] = refl
  contains-find_index a (x ∷ xs) = ground (arith, contains-find_index a xs)

  pub contains-remove_index :
      (a b : A) (xs : List A) (i : ℕ)
      → find_index xs a ≡ some i
      → distinct xs ≡ true
      → contains b (remove_index xs i) ≡ (if a == b then false else contains b xs)
  unfolding find_index remove_index
  contains-remove_index a b [] i h d = cc
  contains-remove_index a b (x ∷ xs) zero h d = ground arith
  contains-remove_index a b (x ∷ xs) (suc i) h d = ground (arith, contains-remove_index a b xs i)

  pub distinct-remove_index :
      (a : A) (xs : List A) (i : ℕ)
      → find_index xs a ≡ some i
      → distinct xs ≡ true
      → distinct (remove_index xs i) ≡ true
  unfolding find_index remove_index
  distinct-remove_index a [] i h d = cc
  distinct-remove_index a (x ∷ xs) zero h d = ground arith
  distinct-remove_index a (x ∷ xs) (suc i) h d =
      ground (arith, distinct-remove_index a xs i, contains-remove_index a x xs i)

  pub distinct-append_one :
      (a : A) (xs : List A)
      → contains a xs ≡ false
      → distinct xs ≡ true
      → distinct (xs ++ a ∷ []) ≡ true
  distinct-append_one a [] h d = refl
  distinct-append_one a (x ∷ xs) h d =
      ground (arith, distinct-append_one a xs, contains-append x xs (a ∷ []))

  pub length-remove_index :
      (a : A) (xs : List A) (i : ℕ)
      → find_index xs a ≡ some i
      → length (remove_index xs i) + 1 ≡ length xs
  unfolding find_index remove_index
  length-remove_index a [] i h = cc
  length-remove_index a (x ∷ xs) zero h = omega arith
  length-remove_index a (x ∷ xs) (suc i) h = ground (arith, length-remove_index a xs i)

module _ {K V : Type 0} ⦃e : Eq K⦄ where
  pub find_entry-absent :
      (es : List (K × V)) (k : K) → contains k (keys es) ≡ false → find_entry es k ≡ none
  find_entry-absent [] k h = refl
  find_entry-absent ((j, v) ∷ es) k h = ground (arith, find_entry-absent es k)

-- `arr->len<1`
module _ {A : Type 0} where
  pub short-nil : (xs : List A) → ltb (length xs) 1 ≡ true → xs ≡ []
  short-nil [] h = refl
  short-nil (x ∷ xs) h = ground arith

  pub long-cons : (xs : List A) → ltb (length xs) 1 ≡ false → xs ≢ []
  long-cons [] h = ground arith
  long-cons (x ∷ xs) h = ground arith

  pub append_one-cons : (xs : List A) (a : A) → xs ++ a ∷ [] ≢ []
  append_one-cons [] a = ground arith
  append_one-cons (x ∷ xs) a = ground arith
