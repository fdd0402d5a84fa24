-- ===== src/Db/Rows.antt =====
-- gear/db.c: the rows of one request, by their numbers.
use gonggo.Base.{
  ℕ, zero, suc, ◌+◌, ◌<◌, ◌≤◌, ◌≡◌, ◌≢◌, refl, String, Bool, false, List, [], ◌∷◌, arith, ◌||◌,
  if◌then◌else◌, ◌==◌, string_eq, nat_eq, leb, Bool-cases, inl, inr, drop, take, ap, ◌∙◌, sym,
}
use gonggo.Db.{Row, select_rows, insert_by_num, order_by_num}
use gonggo.Db.Numbers.{has_key, IsKeyed}

abbrev has_num : List Row → ℕ → Bool
has_num [] n = false
has_num (r ∷ rows) n = r.num == n || has_num rows n

abbrev Distinct : List Row → Type 0
Distinct [] = Unit
Distinct (r ∷ rows) = (has_num rows r.num ≡ false) × Distinct rows

-- Strictly ascending, from `n` on.
abbrev pub Above : ℕ → List Row → Type 0
Above n [] = Unit
Above n (r ∷ rows) = (n ≤ r.num) × Above (suc r.num) rows

-- The rows from a number on.
abbrev from : ℕ → List Row → List Row
from k [] = []
from k (r ∷ rows) = let rest = from k rows in if leb k r.num then r ∷ rest else rest

has_num-select :
    (rows : List Row) (rid : String) (start n : ℕ)
    → has_key rows rid n ≡ false
    → has_num (select_rows rows rid start) n ≡ false
unfolding select_rows
has_num-select [] rid start n h = refl
has_num-select (r ∷ rows) rid start n h = ground (arith, has_num-select rows rid start n)

Distinct-select :
    (rows : List Row) (rid : String) (start : ℕ)
    → IsKeyed rows
    → Distinct (select_rows rows rid start)
unfolding select_rows
Distinct-select [] rid start k = tt
Distinct-select (r ∷ rows) rid start k =
    ground (arith, k, Distinct-select rows rid start k.2, has_num-select rows rid start r.num)

has_num-insert :
    (r : Row) (rows : List Row) (n : ℕ)
    → has_num (insert_by_num r rows) n ≡ (r.num == n || has_num rows n)
unfolding insert_by_num
has_num-insert r [] n = refl
has_num-insert r (q ∷ rows) n = ground (arith, has_num-insert r rows n)

has_num-order : (rows : List Row) (n : ℕ) → has_num (order_by_num rows) n ≡ has_num rows n
unfolding order_by_num
has_num-order [] n = refl
has_num-order (r ∷ rows) n =
    ground (arith, has_num-insert r (order_by_num rows) n, has_num-order rows n)

Above-weaken : {m n : ℕ} (rows : List Row) → m ≤ n → Above n rows → Above m rows
Above-weaken [] h a = tt
Above-weaken (r ∷ rows) h a = (omega arith, a.1)

Above-insert :
    (n : ℕ) (r : Row) (rows : List Row)
    → n ≤ r.num
    → has_num rows r.num ≡ false
    → Above n rows
    → Above n (insert_by_num r rows)
unfolding insert_by_num
Above-insert n r [] h f a = (h, tt)
Above-insert n r (q ∷ rows) h f a =
    ground (arith, h, f, a, Above-insert (suc q.num) r rows, Above-weaken rows)

pub Above-order : (rows : List Row) → Distinct rows → Above 0 (order_by_num rows)
unfolding order_by_num
Above-order [] d = tt
Above-order (r ∷ rows) d =
    Above-insert 0 r (order_by_num rows) (omega arith) (has_num-order rows r.num ∙ d.0)
      (Above-order rows d.1)

from-select :
    (rows : List Row) (rid : String) (start k : ℕ)
    → start ≤ k
    → from k (select_rows rows rid start) ≡ select_rows rows rid k
unfolding select_rows
from-select [] rid start k h = refl
from-select (r ∷ rows) rid start k h = ground (arith, h, from-select rows rid start k h)

from-all : (k n : ℕ) (rows : List Row) → k ≤ n → Above n rows → from k rows ≡ rows
from-all k n [] h a = refl
from-all k n (r ∷ rows) h a = ground (arith, h, a, from-all k (suc r.num) rows)

from-insert :
    (k n : ℕ) (r : Row) (rows : List Row)
    → Above n rows
    → from k (insert_by_num r rows)
      ≡ (if leb k r.num then insert_by_num r (from k rows) else from k rows)
unfolding insert_by_num
from-insert k n r [] a = ground arith
from-insert k n r (q ∷ rows) a =
    ground (arith, a, from-insert k (suc q.num) r rows a.1, from-all k (suc q.num) rows)

from-order :
    (k : ℕ) (rows : List Row)
    → Distinct rows
    → from k (order_by_num rows) ≡ order_by_num (from k rows)
unfolding order_by_num
from-order k [] d = refl
from-order k (r ∷ rows) d =
    from-insert k 0 r (order_by_num rows) (Above-order rows d.1)
    ∙ ground (arith, from-order k rows d.1)

-- The rows of a request from a number on, in order.
abbrev pub rows_from : List Row → String → ℕ → List Row
rows_from rows rid start = order_by_num (select_rows rows rid start)

pub rows_from-Above :
    (rows : List Row) (rid : String) (start : ℕ) → IsKeyed rows → Above 0 (rows_from rows rid start)
rows_from-Above rows rid start k = Above-order _ (Distinct-select rows rid start k)

rows_from-from :
    (rows : List Row) (rid : String) (start k : ℕ)
    → IsKeyed rows
    → start ≤ k
    → rows_from rows rid k ≡ from k (rows_from rows rid start)
rows_from-from rows rid start k v h = sym (
    from-order k (select_rows rows rid start) (Distinct-select rows rid start v)
    ∙ ap order_by_num (from-select rows rid start k h))

-- The number of the last row.
abbrev pub last_num : ℕ → List Row → ℕ
last_num d [] = d
last_num d (r ∷ rows) = last_num r.num rows

last_num-ge : (d n : ℕ) (rows : List Row) → Above n rows → d < n → d ≤ last_num d rows
last_num-ge d n [] a h = omega arith
last_num-ge d n (r ∷ rows) a h = omega (arith, last_num-ge r.num (suc r.num) rows a.1 (omega arith))

Above-take : (n m : ℕ) (rows : List Row) → Above n rows → Above n (take m rows)
Above-take n zero rows a = tt
Above-take n (suc m) [] a = tt
Above-take n (suc m) (r ∷ rows) a = (a.0, Above-take (suc r.num) m rows a.1)

-- From behind the last of the first `m` rows, the others follow.
from-drop :
    (n d m : ℕ) (rows : List Row)
    → Above n rows
    → d < n
    → from (last_num d (take m rows) + 1) rows ≡ drop m rows
from-drop n d zero rows a h = from-all (d + 1) n rows (omega arith) a
from-drop n d (suc m) [] a h = refl
from-drop n d (suc m) (r ∷ rows) a h = ground (
  arith,
  last_num-ge r.num (suc r.num) (take m rows) (Above-take (suc r.num) m rows a.1) (omega arith),
  from-drop (suc r.num) r.num m rows a.1 (omega arith),
)

Above-from : (k : ℕ) (n : ℕ) (rows : List Row) → Above n rows → Above k (from k rows)
Above-from k n [] a = tt
Above-from k n (r ∷ rows) a = elim (Bool-cases (leb k r.num)) [
  | inl yet ↦
      rw (yet, from-all k (suc r.num) rows (ground (arith, yet)) a.1) (ground (arith, yet), a.1)
  | inr no_more ↦ rw no_more (Above-from k (suc r.num) rows a.1)
]

rows_from-Above_start :
    (rows : List Row) (rid : String) (start : ℕ)
    → IsKeyed rows
    → Above start (rows_from rows rid start)
rows_from-Above_start rows rid start v =
    rw (rows_from-from rows rid start start v (omega arith))
      (Above-from start 0 (rows_from rows rid start) (rows_from-Above rows rid start v))

-- The rows behind the last of the first `m`, if there is a first.
pub rows_from-drop :
    (rows : List Row) (rid : String) (start m : ℕ)
    → IsKeyed rows
    → 1 ≤ start
    → 1 ≤ m
    → rows_from rows rid start ≢ []
    → rows_from rows rid (last_num 0 (take m (rows_from rows rid start)) + 1)
      ≡ drop m (rows_from rows rid start)
rows_from-drop rows rid start m v s h ne =
    let above = rows_from-Above_start rows rid start v in
    rows_from-from rows rid start _ v (behind (rows_from rows rid start) m above s h ne)
    ∙ from-drop start 0 m (rows_from rows rid start) above (omega arith)
  where
    behind :
        (xs : List Row) (m : ℕ)
        → Above start xs
        → 1 ≤ start
        → 1 ≤ m
        → xs ≢ []
        → start ≤ last_num 0 (take m xs) + 1
    behind [] m a s h ne = absurd (ne refl)
    behind (x ∷ xs) zero a s h ne = absurd (omega arith)
    behind (x ∷ xs) (suc m) a s h ne = omega (
      arith,
      last_num-ge x.num (suc x.num) (take m xs) (Above-take (suc x.num) m xs a.1) (omega arith),
    )
