-- ===== src/Client/Proxyname/Flags.antt =====
-- The two arrays of a proxy's entry, read as one finite map from requests to flags.
use gonggo.Base.{
  ℕ, zero, suc, ◌≡◌, ◌≢◌, refl, String, Bool, true, false, Option, none, some, List, [], ◌∷◌, ◌++◌,
  arith, if◌then◌else◌, ◌==◌, string_eq, contains, distinct, length, set,
}
use gonggo.Glib.{find_index, remove_index}

-- The flag of a request, if it is there.
abbrev pub flag : List String → List Bool → String → Option Bool
flag [] sents rid = none
flag (r ∷ rids) [] rid = none
flag (r ∷ rids) (sent ∷ sents) rid = if r == rid then some sent else flag rids sents rid

abbrev pub is_unsent : Option Bool → Bool
is_unsent none = false
is_unsent (some sent) = if sent then false else true

-- The loops of the file, over the arrays of one entry.
unfoldable pub all_unsent : List Bool → List Bool
all_unsent [] = []
all_unsent (_ ∷ sents) = false ∷ all_unsent sents

unfoldable pub not_sent : List String → List Bool → List String
not_sent [] sents = []
not_sent (rid ∷ rids) [] = []
not_sent (rid ∷ rids) (sent ∷ sents) =
    let rest = not_sent rids sents in if sent then rest else rid ∷ rest

pub flag-find_index :
    (rids : List String) (sents : List Bool) (rid : String)
    → length rids ≡ length sents
    → find_index rids rid ≡ none
    → flag rids sents rid ≡ none
unfolding find_index
flag-find_index [] sents rid l h = refl
flag-find_index (r ∷ rids) [] rid l h = refl
flag-find_index (r ∷ rids) (s ∷ sents) rid l h = ground (arith, flag-find_index rids sents rid)

pub flag-append_one :
    (rids : List String) (sents : List Bool) (r rid : String)
    → length rids ≡ length sents
    → find_index rids r ≡ none
    → flag (rids ++ r ∷ []) (sents ++ false ∷ []) rid
      ≡ (if r == rid then some false else flag rids sents rid)
unfolding find_index
flag-append_one [] [] r rid l h = ground arith
flag-append_one [] (s ∷ sents) r rid l h = ground arith
flag-append_one (q ∷ rids) [] r rid l h = ground arith
flag-append_one (q ∷ rids) (s ∷ sents) r rid l h = ground (arith, flag-append_one rids sents r rid)

pub flag-set :
    (rids : List String) (sents : List Bool) (r rid : String) (i : ℕ)
    → length rids ≡ length sents
    → find_index rids r ≡ some i
    → flag rids (set sents i true) rid ≡ (if r == rid then some true else flag rids sents rid)
unfolding find_index
flag-set [] sents r rid i l h = cc
flag-set (q ∷ rids) [] r rid i l h = ground arith
flag-set (q ∷ rids) (s ∷ sents) r rid zero l h = ground arith
flag-set (q ∷ rids) (s ∷ sents) r rid (suc i) l h = ground (arith, flag-set rids sents r rid i)

flag-absent :
    (rids : List String) (sents : List Bool) (rid : String)
    → contains rid rids ≡ false
    → flag rids sents rid ≡ none
flag-absent [] sents rid h = refl
flag-absent (r ∷ rids) [] rid h = refl
flag-absent (r ∷ rids) (s ∷ sents) rid h = ground (arith, flag-absent rids sents rid)

pub flag-remove_index :
    (rids : List String) (sents : List Bool) (r rid : String) (i : ℕ)
    → length rids ≡ length sents
    → distinct rids ≡ true
    → find_index rids r ≡ some i
    → flag (remove_index rids i) (remove_index sents i) rid
      ≡ (if r == rid then none else flag rids sents rid)
unfolding find_index remove_index
flag-remove_index [] sents r rid i l d h = cc
flag-remove_index (q ∷ rids) [] r rid i l d h = ground arith
flag-remove_index (q ∷ rids) (s ∷ sents) r rid zero l d h =
    ground (arith, flag-absent rids sents rid)
flag-remove_index (q ∷ rids) (s ∷ sents) r rid (suc i) l d h =
    ground (arith, flag-remove_index rids sents r rid i)

pub flag-all_unsent :
    (rids : List String) (sents : List Bool) (rid : String)
    → flag rids (all_unsent sents) rid
      ≡ elim (flag rids sents rid) [ none ↦ none | some _ ↦ some false ]
unfolding all_unsent
flag-all_unsent [] sents rid = refl
flag-all_unsent (r ∷ rids) [] rid = refl
flag-all_unsent (r ∷ rids) (s ∷ sents) rid = ground (arith, flag-all_unsent rids sents rid)

pub length-all_unsent : (sents : List Bool) → length (all_unsent sents) ≡ length sents
unfolding all_unsent
length-all_unsent [] = refl
length-all_unsent (s ∷ sents) = ground (arith, length-all_unsent sents)

pub contains-not_sent :
    (rids : List String) (sents : List Bool) (rid : String)
    → distinct rids ≡ true
    → contains rid (not_sent rids sents) ≡ is_unsent (flag rids sents rid)
unfolding not_sent
contains-not_sent [] sents rid d = refl
contains-not_sent (r ∷ rids) [] rid d = refl
contains-not_sent (r ∷ rids) (s ∷ sents) rid d =
    ground (arith, contains-not_sent rids sents rid, flag-absent rids sents rid)

pub flag-found :
    (rids : List String) (sents : List Bool) (rid : String) (i : ℕ)
    → length rids ≡ length sents
    → find_index rids rid ≡ some i
    → flag rids sents rid ≢ none
unfolding find_index
flag-found [] sents rid i l h = cc
flag-found (r ∷ rids) [] rid i l h = ground arith
flag-found (r ∷ rids) (s ∷ sents) rid zero l h = ground arith
flag-found (r ∷ rids) (s ∷ sents) rid (suc i) l h = ground (arith, flag-found rids sents rid i)

pub length-remove_both :
    (rids : List String) (sents : List Bool) (i : ℕ)
    → length rids ≡ length sents
    → length (remove_index rids i) ≡ length (remove_index sents i)
unfolding remove_index
length-remove_both [] [] i l = refl
length-remove_both [] (s ∷ sents) i l = ground arith
length-remove_both (r ∷ rids) [] i l = ground arith
length-remove_both (r ∷ rids) (s ∷ sents) zero l = ground arith
length-remove_both (r ∷ rids) (s ∷ sents) (suc i) l =
    ground (arith, length-remove_both rids sents i)
