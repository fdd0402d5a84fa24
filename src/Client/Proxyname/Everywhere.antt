-- ===== src/Client/Proxyname/Everywhere.antt =====
-- gear/clientproxynametable.c: `client_proxyname_table_drop_all`, which looks at every proxy, and
-- `client_proxyname_table_proxy_name_dup`.
use gonggo.Base.{
  ◌≡◌, refl, String, true, false, none, List, [], ◌∷◌, arith, ◌≢◌, ◌⊎◌, string_eq, contains,
  Bool-cases, inl, inr, ◌∙◌,
}
use gonggo.Glib.{Glib, keys, find_entry-absent}
use gonggo.Client.Proxyname.Laws.{IsValid, sent_flag, sent_flag-drop, drop-found, drop_missing}
use gonggo.Client.Proxyname.{
  ProxynameTable, client_proxyname_table_drop, drop_first, client_proxyname_table_drop_all,
}

module _ (G : Glib) where
  -- Either no listed proxy has the request, and nothing changes, or one that has it loses it.
  abbrev Dropped : ProxynameTable G → List String → String → ProxynameTable G → Type 0
  Dropped t ps r t' =
      ((t' ≡ t) × ((p : String) → contains p ps ≡ true → sent_flag G t p r ≡ none))
      ⊎ ((p : String) × (sent_flag G t p r ≢ none) × (t' ≡ (client_proxyname_table_drop G t p r).0))

  drop_first-Dropped :
      (t : ProxynameTable G) (ps : List String) (r : String)
      → IsValid G t
      → Dropped t ps r (drop_first G t ps r)
  unfolding drop_first
  drop_first-Dropped t [] r v = inl (refl, λ p h. cc)
  drop_first-Dropped t (p ∷ ps) r v = elim (Bool-cases (client_proxyname_table_drop G t p r).1) [
    | inl found ↦ rw found (inr (p, ground (arith, drop-found G t p r v), refl))
    | inr missing ↦
        rw (missing, drop_missing G t p r missing)
          (elim (drop_first-Dropped t ps r v) [
            | inl (same, absent) ↦ inl (same, λ q h. ground (arith, absent q, drop-found G t p r v))
            | inr (q, there, e) ↦ inr (q, there, e)
          ])
  ]

  sent_flag-entries :
      (t : ProxynameTable G) (p r : String)
      → contains p (keys (G.entries t)) ≡ false
      → sent_flag G t p r ≡ none
  sent_flag-entries t p r h =
      ground (arith, G.lookup-entries t p, find_entry-absent (G.entries t) p h)

  -- Everywhere: no proxy has the request, or one that has it loses it.
  pub drop_all-cases :
      (t : ProxynameTable G) (r : String)
      → IsValid G t
      → ((client_proxyname_table_drop_all G t r ≡ t) × ((p : String) → sent_flag G t p r ≡ none))
        ⊎ ((p : String) × (sent_flag G t p r ≢ none)
            × (client_proxyname_table_drop_all G t r ≡ (client_proxyname_table_drop G t p r).0))
  unfolding client_proxyname_table_drop_all
  drop_all-cases t r v = elim (drop_first-Dropped t (keys (G.entries t)) r v) [
    | inl (same, absent) ↦ inl (same, λ p. ground (arith, absent p, sent_flag-entries t p r))
    | inr there ↦ inr there
  ]

  pub drop_all_other :
      (t : ProxynameTable G) (r q s : String)
      → IsValid G t
      → r ≢ s
      → sent_flag G (client_proxyname_table_drop_all G t r) q s ≡ sent_flag G t q s
  drop_all_other t r q s v h = elim (drop_all-cases t r v) [
    | inl (same, _) ↦ rw same
    | inr (p, _, e) ↦ rw e (sent_flag-drop G t p r q s v ∙ ground arith)
  ]

  -- On a valid table, a request that at most one proxy has is under no proxy once it is dropped from
  -- all.
  pub drop_all_single :
      (t : ProxynameTable G) (r q : String)
      → IsValid G t
      → ((p p' : String) → sent_flag G t p r ≢ none → sent_flag G t p' r ≢ none → p ≡ p')
      → sent_flag G (client_proxyname_table_drop_all G t r) q r ≡ none
  drop_all_single t r q v one = elim (drop_all-cases t r v) [
    | inl (same, absent) ↦ rw same (absent q)
    | inr (p, there, e) ↦ rw e (sent_flag-drop G t p r q r v ∙ ground (arith, one p q there))
  ]

  -- On a valid table, a request that two proxies have stays with at least one of the two when it is
  -- dropped from all: the loop ends at the first proxy that had it.
  pub drop_all_double :
      (t : ProxynameTable G) (r p q : String)
      → IsValid G t
      → p ≢ q
      → sent_flag G t p r ≢ none
      → sent_flag G t q r ≢ none
      → (sent_flag G (client_proxyname_table_drop_all G t r) p r ≢ none)
        ⊎ (sent_flag G (client_proxyname_table_drop_all G t r) q r ≢ none)
  drop_all_double t r p q v ne hp hq = elim (drop_all-cases t r v) [
    | inl (same, _) ↦ rw same (inl hp)
    | inr (o, there, e) ↦
        rw e
          (ground (arith, ne, hp, hq, sent_flag-drop G t o r p r v, sent_flag-drop G t o r q r v))
  ]
