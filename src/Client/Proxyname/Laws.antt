-- ===== src/Client/Proxyname/Laws.antt =====
-- gear/clientproxynametable.c as a finite map from a proxy and a request to a flag.
use gonggo.Base.{
  ◌≡◌, String, Bool, true, false, Option, none, some, [], ◌∷◌, ◌++◌, arith, ◌≢◌, if◌then◌else◌,
  ◌==◌, string_eq, contains, distinct, length, set, Option-cases, inl, inr,
}
use gonggo.Glib.{Glib, find_index, remove_index, short-nil}
use gonggo.Client.Proxyname.Flags.{
  flag, is_unsent, all_unsent, flag-find_index, flag-append_one, flag-set, flag-remove_index,
  flag-all_unsent, contains-not_sent, flag-found,
}
use gonggo.Client.Proxyname.{
  ClientProxynameTableValue, ProxynameTable, client_proxyname_table_set,
  client_proxyname_table_request_sent, client_proxyname_table_request_unsent,
  client_proxyname_table_drop, client_proxyname_table_request_dup,
}

-- An entry's arrays have one length, no request stands twice, and there is one.
pub record IsValidValue (v : ClientProxynameTableValue) : Type 0 where
  pub aligned : length v.request_uuids ≡ length v.sents
  pub single : distinct v.request_uuids ≡ true
  pub filled : v.request_uuids ≢ []

module _ (G : Glib) where
  pub record IsValid (t : ProxynameTable G) : Type 0 where
    pub apply :
        (proxy : String) (v : ClientProxynameTableValue)
        → G.lookup t proxy ≡ some v
        → IsValidValue v

  -- Whether a request was handed to a proxy, if the proxy has it.
  abbrev pub sent_flag : ProxynameTable G → String → String → Option Bool
  sent_flag t proxy rid = elim (G.lookup t proxy) [
    | none ↦ none
    | some v ↦ flag v.request_uuids v.sents rid
  ]

  -- On a valid table, a request that is set for a proxy is there and unsent, unless the proxy had it:
  -- then its flag stays. Every other flag is as it was.
  pub sent_flag-set :
      (t : ProxynameTable G) (p r q s : String)
      → IsValid t
      → sent_flag (client_proxyname_table_set G t p r) q s ≡ (
          if p == q
          then if r == s
            then elim (sent_flag t q s) [ none ↦ some false | some sent ↦ some sent ]
            else sent_flag t q s
          else sent_flag t q s)
  unfolding client_proxyname_table_set
  sent_flag-set t p r q s v = elim (Option-cases (G.lookup t p)) [
    | inl e ↦
        ground
          (arith, e, G.lookup-insert t p (record { request_uuids = r ∷ []; sents = false ∷ [] }) q)
    | inr (x, e) ↦ elim (Option-cases (find_index x.request_uuids r)) [
      | inl fresh ↦ ground (
        arith,
        e,
        fresh,
        G.lookup-insert t p
            (record { request_uuids = x.request_uuids ++ r ∷ []; sents = x.sents ++ false ∷ [] }) q,
        flag-append_one x.request_uuids x.sents r s (v.apply p x e).aligned fresh,
        flag-find_index x.request_uuids x.sents r (v.apply p x e).aligned fresh,
      )
      | inr (i, found) ↦
          ground
            (arith, e, found, flag-found x.request_uuids x.sents r i (v.apply p x e).aligned found)
    ]
  ]

  pub sent_flag-request_sent :
      (t : ProxynameTable G) (p r q s : String)
      → IsValid t
      → sent_flag (client_proxyname_table_request_sent G t p r) q s ≡ (
          if p == q
          then if r == s
            then elim (sent_flag t q s) [ none ↦ none | some _ ↦ some true ]
            else sent_flag t q s
          else sent_flag t q s)
  unfolding client_proxyname_table_request_sent
  sent_flag-request_sent t p r q s v = elim (Option-cases (G.lookup t p)) [
    | inl e ↦ ground (arith, e)
    | inr (x, e) ↦ elim (Option-cases (find_index x.request_uuids r)) [
      | inl missing ↦ ground (
        arith,
        e,
        missing,
        flag-find_index x.request_uuids x.sents r (v.apply p x e).aligned missing,
      )
      | inr (i, found) ↦ ground (
        arith,
        e,
        found,
        G.lookup-insert t p (record x { sents = set x.sents i true }) q,
        flag-set x.request_uuids x.sents r s i (v.apply p x e).aligned found,
        flag-found x.request_uuids x.sents r i (v.apply p x e).aligned found,
      )
    ]
  ]

  pub sent_flag-request_unsent :
      (t : ProxynameTable G) (p q s : String)
      → sent_flag (client_proxyname_table_request_unsent G t p) q s ≡ (
          if p == q
          then elim (sent_flag t q s) [ none ↦ none | some _ ↦ some false ]
          else sent_flag t q s)
  unfolding client_proxyname_table_request_unsent
  sent_flag-request_unsent t p q s = elim (Option-cases (G.lookup t p)) [
    | inl e ↦ ground (arith, e)
    | inr (x, e) ↦ ground (
      arith,
      e,
      G.lookup-insert t p (record x { sents = all_unsent x.sents }) q,
      flag-all_unsent x.request_uuids x.sents s,
    )
  ]

  -- On a valid table, dropping a request from a proxy takes it away there, and every other flag is as
  -- it was.
  pub sent_flag-drop :
      (t : ProxynameTable G) (p r q s : String)
      → IsValid t
      → sent_flag (client_proxyname_table_drop G t p r).0 q s
        ≡ (if p == q then (if r == s then none else sent_flag t q s) else sent_flag t q s)
  unfolding client_proxyname_table_drop
  sent_flag-drop t p r q s v = elim (Option-cases (G.lookup t p)) [
    | inl e ↦ ground (arith, e)
    | inr (x, e) ↦ elim (Option-cases (find_index x.request_uuids r)) [
      | inl missing ↦ ground (
        arith,
        e,
        missing,
        flag-find_index x.request_uuids x.sents r (v.apply p x e).aligned missing,
      )
      | inr (i, found) ↦ ground (
        arith,
        e,
        found,
        G.lookup-remove t p q,
        G.lookup-insert t p
            (record {
              request_uuids = remove_index x.request_uuids i;
              sents = remove_index x.sents i;
            })
            q,
        flag-remove_index x.request_uuids x.sents r s i (v.apply p x e).aligned
            (v.apply p x e).single found,
        short-nil (remove_index x.request_uuids i),
      )
    ]
  ]

  -- Whether the request was there, and if not the table is as it was.
  pub drop-found :
      (t : ProxynameTable G) (p r : String)
      → IsValid t
      → (client_proxyname_table_drop G t p r).1
        ≡ elim (sent_flag t p r) [ none ↦ false | some _ ↦ true ]
  unfolding client_proxyname_table_drop
  drop-found t p r v = elim (Option-cases (G.lookup t p)) [
    | inl e ↦ ground (arith, e)
    | inr (x, e) ↦ elim (Option-cases (find_index x.request_uuids r)) [
      | inl missing ↦ ground (
        arith,
        e,
        missing,
        flag-find_index x.request_uuids x.sents r (v.apply p x e).aligned missing,
      )
      | inr (i, found) ↦
          ground
            (arith, e, found, flag-found x.request_uuids x.sents r i (v.apply p x e).aligned found)
    ]
  ]

  pub drop_missing :
      (t : ProxynameTable G) (p r : String)
      → (client_proxyname_table_drop G t p r).1 ≡ false
      → (client_proxyname_table_drop G t p r).0 ≡ t
  unfolding client_proxyname_table_drop
  drop_missing t p r h = ground arith

  -- On a valid table, the copy of a proxy's requests that leaves out the sent ones has exactly those
  -- whose flag is unset.
  pub contains-request_dup :
      (t : ProxynameTable G) (p r : String)
      → IsValid t
      → elim (client_proxyname_table_request_dup G t p true) [
        | none ↦ false
        | some rids ↦ contains r rids
      ]
        ≡ is_unsent (sent_flag t p r)
  unfolding client_proxyname_table_request_dup
  contains-request_dup t p r v = elim (Option-cases (G.lookup t p)) [
    | inl e ↦ ground (arith, e)
    | inr (x, e) ↦
        ground (arith, e, contains-not_sent x.request_uuids x.sents r (v.apply p x e).single)
  ]
