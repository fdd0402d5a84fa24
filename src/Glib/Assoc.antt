-- ===== src/Glib/Assoc.antt =====
-- A `Glib` whose tables are lists of entries, the latest first: what the interface assumes of
-- `GHashTable` can be met, and it runs in tests.
use gonggo.Base.{◌≡◌, refl, true, false, none, List, [], ◌∷◌, arith}
use gonggo.Base.{Eq, ◌==◌, if◌then◌else◌, contains, distinct}
use gonggo.Glib.Defs.{Glib, find_entry, keys}

module _ {K V : Type 0} ⦃e : Eq K⦄ where
  unfoldable pub cut : List (K × V) → K → List (K × V)
  cut [] k = []
  cut ((j, w) ∷ t) k = let rest = cut t k in if j == k then rest else (j, w) ∷ rest

  unfoldable pub dedup : List (K × V) → List (K × V)
  dedup [] = []
  dedup ((k, v) ∷ t) = (k, v) ∷ cut (dedup t) k

  pub find_entry-cut :
      (t : List (K × V)) (k j : K)
      → find_entry (cut t k) j ≡ (if k == j then none else find_entry t j)
  unfolding cut
  find_entry-cut [] k j = ground arith
  find_entry-cut ((i, w) ∷ t) k j = ground (arith, find_entry-cut t k j)

  pub find_entry-dedup : (t : List (K × V)) (j : K) → find_entry t j ≡ find_entry (dedup t) j
  unfolding dedup
  find_entry-dedup [] j = refl
  find_entry-dedup ((k, v) ∷ t) j =
      ground (arith, find_entry-cut (dedup t) k j, find_entry-dedup t j)

  contains-cut :
      (t : List (K × V)) (k j : K)
      → contains j (keys (cut t k)) ≡ (if k == j then false else contains j (keys t))
  unfolding cut
  contains-cut [] k j = ground arith
  contains-cut ((i, w) ∷ t) k j = ground (arith, contains-cut t k j)

  distinct-cut :
      (t : List (K × V)) (k : K) → distinct (keys t) ≡ true → distinct (keys (cut t k)) ≡ true
  unfolding cut
  distinct-cut [] k h = refl
  distinct-cut ((i, w) ∷ t) k h = ground (arith, contains-cut t k i, distinct-cut t k)

  pub distinct-dedup : (t : List (K × V)) → distinct (keys (dedup t)) ≡ true
  unfolding dedup
  distinct-dedup [] = refl
  distinct-dedup ((k, v) ∷ t) =
      ground (arith, contains-cut (dedup t) k k, distinct-cut (dedup t) k (distinct-dedup t))

abbrev pub assoc : Glib
assoc = record {
  Table = λ K V. List (K × V);
  new = [];
  lookup = find_entry;
  insert = λ t k v. (k, v) ∷ t;
  remove = cut;
  entries = dedup;
  lookup-new = λ k. refl;
  lookup-insert = λ t k v j. refl;
  lookup-remove = find_entry-cut;
  lookup-entries = find_entry-dedup;
  distinct-entries = distinct-dedup;
}
