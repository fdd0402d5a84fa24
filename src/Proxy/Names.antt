-- ===== src/Proxy/Names.antt =====
-- The two arrays of proxy names: that of gear/proxyterminatearray.c, and the one of gear/proxy.c
-- that holds the proxies whose threads are about to be ended. Each function is one step, under the
-- array's lock.
use gonggo.Base.{
  ◌≡◌, String, Bool, true, false, none, some, List, [], ◌∷◌, ◌++◌, arith, ◌==◌, ◌||◌, if◌then◌else◌,
  string_eq, contains, distinct, contains-append, Option-cases, ◌∙◌, inl, inr,
}
use gonggo.Glib.{
  find_index, remove_index, contains-find_index, contains-remove_index, distinct-remove_index,
  distinct-append_one,
}

unfoldable pub proxy_terminate_array_set : List String → String → List String
proxy_terminate_array_set arr proxy_name = elim (find_index arr proxy_name) [
  | some _ ↦ arr
  | none ↦ arr ++ proxy_name ∷ []
]

unfoldable pub proxy_terminate_array_drop : List String → String → List String
proxy_terminate_array_drop arr proxy_name = elim (find_index arr proxy_name) [
  | some idx ↦ remove_index arr idx
  | none ↦ arr
]

unfoldable pub proxy_terminate_array_exists : List String → String → Bool
proxy_terminate_array_exists arr proxy_name = elim (find_index arr proxy_name) [
  | some _ ↦ true
  | none ↦ false
]

unfoldable pub proxy_thread_terminating_set : List String → String → List String
proxy_thread_terminating_set arr proxy_name = elim (find_index arr proxy_name) [
  | some _ ↦ arr
  | none ↦ arr ++ proxy_name ∷ []
]

unfoldable pub proxy_thread_terminating_drop : List String → String → List String
proxy_thread_terminating_drop arr proxy_name = elim (find_index arr proxy_name) [
  | some idx ↦ remove_index arr idx
  | none ↦ arr
]

unfoldable pub proxy_thread_zombie : List String → String → Bool
proxy_thread_zombie arr proxy_name = elim (find_index arr proxy_name) [
  | some _ ↦ true
  | none ↦ false
]

pub zombie-contains :
    (arr : List String) (name : String) → proxy_thread_zombie arr name ≡ contains name arr
unfolding proxy_thread_zombie
zombie-contains arr name = ground (arith, contains-find_index name arr)

pub zombie-set :
    (arr : List String) (name other : String)
    → proxy_thread_zombie (proxy_thread_terminating_set arr name) other
      ≡ (name == other || proxy_thread_zombie arr other)
unfolding proxy_thread_zombie proxy_thread_terminating_set
zombie-set arr name other = ground (
  arith,
  contains-find_index name arr,
  contains-find_index other arr,
  contains-find_index other (arr ++ name ∷ []),
  contains-append other arr (name ∷ []),
)

contains-drop :
    (arr : List String) (name other : String)
    → distinct arr ≡ true
    → contains other (proxy_thread_terminating_drop arr name)
      ≡ (if name == other then false else proxy_thread_zombie arr other)
unfolding proxy_thread_terminating_drop
contains-drop arr name other d = elim (Option-cases (find_index arr name)) [
  | inl e ↦ ground (arith, e, contains-find_index name arr, zombie-contains arr other)
  | inr (i, e) ↦
      ground (arith, e, contains-remove_index name other arr i e d, zombie-contains arr other)
]

-- In an array without repetitions, a proxy that is dropped is no zombie any more, and every other
-- proxy is one exactly if it was.
pub zombie-drop :
    (arr : List String) (name other : String)
    → distinct arr ≡ true
    → proxy_thread_zombie (proxy_thread_terminating_drop arr name) other
      ≡ (if name == other then false else proxy_thread_zombie arr other)
zombie-drop arr name other d =
    zombie-contains (proxy_thread_terminating_drop arr name) other ∙ contains-drop arr name other d

pub set-distinct :
    (arr : List String) (name : String)
    → distinct arr ≡ true
    → distinct (proxy_thread_terminating_set arr name) ≡ true
unfolding proxy_thread_terminating_set
set-distinct arr name d = ground (arith, contains-find_index name arr, distinct-append_one name arr)

pub drop-distinct :
    (arr : List String) (name : String)
    → distinct arr ≡ true
    → distinct (proxy_thread_terminating_drop arr name) ≡ true
unfolding proxy_thread_terminating_drop
drop-distinct arr name d = elim (Option-cases (find_index arr name)) [
  | inl e ↦ ground (arith, e, d)
  | inr (i, e) ↦ ground (arith, e, distinct-remove_index name arr i e d)
]
