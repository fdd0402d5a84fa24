-- ===== src/Client/Connection/Laws.antt =====
-- gear/clientconnectiontable.c as a set of pairs of a connection and a request.
use gonggo.Base.{
  ◌≡◌, String, Bool, true, false, none, some, List, [], ◌∷◌, ◌++◌, arith, if◌then◌else◌, ◌==◌,
  string_eq, nat_eq, contains, distinct, contains-append, ◌≢◌, Option-cases, inl, inr,
}
use gonggo.Glib.{
  Glib, find_index, remove_index, contains-find_index, contains-remove_index, distinct-remove_index,
  distinct-append_one, short-nil, long-cons, append_one-cons,
}
use gonggo.Client.Request.{Conn}
use gonggo.Client.Connection.{
  ConnectionTable, client_connection_table_set, client_connection_table_drop,
  client_connection_table_remove,
}

module _ (G : Glib) where
  abbrev pub listed : ConnectionTable G → Conn → String → Bool
  listed t conn rid = elim (G.lookup t conn) [ none ↦ false | some arr ↦ contains rid arr ]

  -- No connection lists a request twice, and none is kept without a request.
  pub record IsValid (t : ConnectionTable G) : Type 0 where
    pub apply :
        (conn : Conn) (arr : List String)
        → G.lookup t conn ≡ some arr
        → (distinct arr ≡ true) × (arr ≢ [])

  pub listed-set :
      (t : ConnectionTable G) (c : Conn) (r : String) (conn : Conn) (rid : String)
      → listed (client_connection_table_set G t c r) conn rid
        ≡ (if c == conn then (if r == rid then true else listed t conn rid) else listed t conn rid)
  unfolding client_connection_table_set
  listed-set t c r conn rid = elim (Option-cases (G.lookup t c)) [
    | inl e ↦ ground (arith, e, G.lookup-insert t c (r ∷ []) conn)
    | inr (arr, e) ↦ ground (
      arith,
      e,
      G.lookup-insert t c (arr ++ r ∷ []) conn,
      contains-append rid arr (r ∷ []),
      contains-find_index r arr,
    )
  ]

  -- On a valid table, dropping a request from a connection takes it off that connection's list, and
  -- every other request stays on every list.
  pub listed-drop :
      (t : ConnectionTable G) (c : Conn) (r : String) (conn : Conn) (rid : String)
      → IsValid t
      → listed (client_connection_table_drop G t c r) conn rid
        ≡ (if c == conn then (if r == rid then false else listed t conn rid) else listed t conn rid)
  unfolding client_connection_table_drop
  listed-drop t c r conn rid v = elim (Option-cases (G.lookup t c)) [
    | inl e ↦ ground (arith, e)
    | inr (arr, e) ↦ elim (Option-cases (find_index arr r)) [
      | inl missing ↦ ground (arith, e, missing, contains-find_index r arr)
      | inr (i, found) ↦ ground (
        arith,
        e,
        found,
        G.lookup-insert t c (remove_index arr i) conn,
        G.lookup-remove t c conn,
        contains-remove_index r rid arr i found (v.apply c arr e).0,
        short-nil (remove_index arr i),
      )
    ]
  ]

  pub listed-remove :
      (t : ConnectionTable G) (c conn : Conn) (rid : String)
      → listed (client_connection_table_remove G t c) conn rid
        ≡ (if c == conn then false else listed t conn rid)
  unfolding client_connection_table_remove
  listed-remove t c conn rid = ground (arith, G.lookup-remove t c conn)

  set-parts :
      (t : ConnectionTable G) (c : Conn) (r : String) (conn : Conn) (arr' : List String)
      → IsValid t
      → G.lookup (client_connection_table_set G t c r) conn ≡ some arr'
      → (distinct arr' ≡ true) × (arr' ≢ [])
  unfolding client_connection_table_set
  set-parts t c r conn arr' v h = elim (Option-cases (G.lookup t c)) [
    | inl e ↦ ground (arith, e, h, v.apply conn arr', G.lookup-insert t c (r ∷ []) conn)
    | inr (arr, e) ↦ ground (
      arith,
      e,
      h,
      v.apply conn arr',
      v.apply c arr e,
      G.lookup-insert t c (arr ++ r ∷ []) conn,
      distinct-append_one r arr,
      append_one-cons arr r,
      contains-find_index r arr,
    )
  ]

  drop-parts :
      (t : ConnectionTable G) (c : Conn) (r : String) (conn : Conn) (arr' : List String)
      → IsValid t
      → G.lookup (client_connection_table_drop G t c r) conn ≡ some arr'
      → (distinct arr' ≡ true) × (arr' ≢ [])
  unfolding client_connection_table_drop
  drop-parts t c r conn arr' v h = elim (Option-cases (G.lookup t c)) [
    | inl e ↦ ground (arith, e, h, v.apply conn arr')
    | inr (arr, e) ↦ elim (Option-cases (find_index arr r)) [
      | inl missing ↦ ground (arith, e, missing, h, v.apply conn arr')
      | inr (i, found) ↦ ground (
        arith,
        e,
        found,
        h,
        v.apply conn arr',
        G.lookup-insert t c (remove_index arr i) conn,
        G.lookup-remove t c conn,
        distinct-remove_index r arr i found (v.apply c arr e).0,
        long-cons (remove_index arr i),
      )
    ]
  ]

  pub set-IsValid :
      (t : ConnectionTable G) (c : Conn) (r : String)
      → IsValid t
      → IsValid (client_connection_table_set G t c r)
  set-IsValid t c r v = record { apply = λ conn arr. set-parts t c r conn arr v }

  pub drop-IsValid :
      (t : ConnectionTable G) (c : Conn) (r : String)
      → IsValid t
      → IsValid (client_connection_table_drop G t c r)
  drop-IsValid t c r v = record { apply = λ conn arr. drop-parts t c r conn arr v }

  pub remove-IsValid :
      (t : ConnectionTable G) (c : Conn)
      → IsValid t
      → IsValid (client_connection_table_remove G t c)
  unfolding client_connection_table_remove
  remove-IsValid t c v = record {
    apply = λ conn arr h. ground (arith, h, v.apply conn arr, G.lookup-remove t c conn);
  }
