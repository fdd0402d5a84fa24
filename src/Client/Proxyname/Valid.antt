-- ===== src/Client/Proxyname/Valid.antt =====
-- gear/clientproxynametable.c: every change of the table keeps its entries well formed.
use gonggo.Base.{
  String, true, false, List, [], ◌∷◌, arith, string_eq, length, length-set, length-append,
  Option-cases, inl, inr, Bool-cases, ltb,
}
use gonggo.Glib.{
  Glib, find_index, remove_index, contains-find_index, distinct-remove_index, distinct-append_one,
  long-cons, append_one-cons,
}
use gonggo.Client.Proxyname.Flags.{length-all_unsent, length-remove_both}
use gonggo.Client.Proxyname.Laws.{IsValid, IsValidValue}
use gonggo.Client.Proxyname.{
  ClientProxynameTableValue, ProxynameTable, client_proxyname_table_set,
  client_proxyname_table_request_sent, client_proxyname_table_request_unsent,
  client_proxyname_table_drop, drop_first, client_proxyname_table_drop_all,
}

module _ (G : Glib) where
  -- One new entry, well formed, keeps the table so.
  insert-IsValid :
      (t : ProxynameTable G) (p : String) (x : ClientProxynameTableValue)
      → IsValid G t
      → IsValidValue x
      → IsValid G (G.insert t p x)
  insert-IsValid t p x v w = record {
    apply = λ q y h. ground (arith, h, w, v.apply q y, G.lookup-insert t p x q);
  }

  cut-IsValid : (t : ProxynameTable G) (p : String) → IsValid G t → IsValid G (G.remove t p)
  cut-IsValid t p v = record {
    apply = λ q y h. ground (arith, h, v.apply q y, G.lookup-remove t p q);
  }

  pub new-IsValid : IsValid G G.new
  new-IsValid = record {
    apply = λ q y h. ground (arith, h, G.lookup-new {V = ClientProxynameTableValue} q);
  }

  pub set-IsValid :
      (t : ProxynameTable G) (p r : String)
      → IsValid G t
      → IsValid G (client_proxyname_table_set G t p r)
  unfolding client_proxyname_table_set
  set-IsValid t p r v = elim (Option-cases (G.lookup t p)) [
    | inl e ↦ rw (e, client_proxyname_table_set) (insert-IsValid t p _ v (ground arith))
    | inr (x, e) ↦ elim (Option-cases (find_index x.request_uuids r)) [
      | inr (i, found) ↦ rw (e, client_proxyname_table_set, found) v
      | inl fresh ↦
          let w = v.apply p x e in
          rw (e, client_proxyname_table_set, fresh)
            (insert-IsValid t p _ v (record {
              aligned = omega (
                arith,
                w.aligned,
                length-append x.request_uuids (r ∷ []),
                length-append x.sents (false ∷ []),
              );
              single =
                  distinct-append_one r x.request_uuids
                    (ground (arith, fresh, contains-find_index r x.request_uuids)) w.single;
              filled = append_one-cons x.request_uuids r;
            }))
    ]
  ]

  pub request_sent-IsValid :
      (t : ProxynameTable G) (p r : String)
      → IsValid G t
      → IsValid G (client_proxyname_table_request_sent G t p r)
  unfolding client_proxyname_table_request_sent
  request_sent-IsValid t p r v = elim (Option-cases (G.lookup t p)) [
    | inl e ↦ rw (e, client_proxyname_table_request_sent) v
    | inr (x, e) ↦ elim (Option-cases (find_index x.request_uuids r)) [
      | inl missing ↦ rw (e, client_proxyname_table_request_sent, missing) v
      | inr (i, found) ↦
          let w = v.apply p x e in
          rw (e, client_proxyname_table_request_sent, found)
            (insert-IsValid t p _ v (record {
              aligned = omega (arith, w.aligned, length-set x.sents i true);
              single = w.single;
              filled = w.filled;
            }))
    ]
  ]

  pub request_unsent-IsValid :
      (t : ProxynameTable G) (p : String)
      → IsValid G t
      → IsValid G (client_proxyname_table_request_unsent G t p)
  unfolding client_proxyname_table_request_unsent
  request_unsent-IsValid t p v = elim (Option-cases (G.lookup t p)) [
    | inl e ↦ rw (e, client_proxyname_table_request_unsent) v
    | inr (x, e) ↦
        let w = v.apply p x e in
        rw (e, client_proxyname_table_request_unsent)
          (insert-IsValid t p _ v (record {
            aligned = omega (arith, w.aligned, length-all_unsent x.sents);
            single = w.single;
            filled = w.filled;
          }))
  ]

  pub drop-IsValid :
      (t : ProxynameTable G) (p r : String)
      → IsValid G t
      → IsValid G (client_proxyname_table_drop G t p r).0
  unfolding client_proxyname_table_drop
  drop-IsValid t p r v = elim (Option-cases (G.lookup t p)) [
    | inl e ↦ rw (e, client_proxyname_table_drop) v
    | inr (x, e) ↦ elim (Option-cases (find_index x.request_uuids r)) [
      | inl missing ↦ rw (e, client_proxyname_table_drop, missing) v
      | inr (i, found) ↦
          rw (e, client_proxyname_table_drop, found)
            (elim (Bool-cases (ltb (length (remove_index x.request_uuids i)) 1)) [
              | inl short ↦ rw short (cut-IsValid t p v)
              | inr long ↦
                  let w = v.apply p x e in
                  rw long (
                    insert-IsValid t p _ v (record {
                      aligned = length-remove_both x.request_uuids x.sents i w.aligned;
                      single = distinct-remove_index r x.request_uuids i found w.single;
                      filled = long-cons (remove_index x.request_uuids i) long;
                    }))
            ])
    ]
  ]

  pub drop_first-IsValid :
      (t : ProxynameTable G) (ps : List String) (r : String)
      → IsValid G t
      → IsValid G (drop_first G t ps r)
  unfolding drop_first
  drop_first-IsValid t [] r v = v
  drop_first-IsValid t (p ∷ ps) r v = elim (Bool-cases (client_proxyname_table_drop G t p r).1) [
    | inl found ↦ rw found (drop-IsValid t p r v)
    | inr missing ↦
        rw missing
          (drop_first-IsValid (client_proxyname_table_drop G t p r).0 ps r (drop-IsValid t p r v))
  ]

  pub drop_all-IsValid :
      (t : ProxynameTable G) (r : String)
      → IsValid G t
      → IsValid G (client_proxyname_table_drop_all G t r)
  unfolding client_proxyname_table_drop_all
  drop_all-IsValid t r v = drop_first-IsValid t _ r v
