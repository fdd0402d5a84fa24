-- ===== src/Client/Proxyname.antt =====
-- gear/clientproxynametable.c and .h: the requests of each proxy, with a flag for those that were
-- handed to it. Each function but `drop_all` is one step on the table, under its lock.
mod Flags
pub mod Laws
pub mod Valid
pub mod Everywhere
unfoldable pub use Flags.{all_unsent, not_sent}
pub use Flags.{flag, is_unsent}
use gonggo.Base.{
  ℕ, String, Bool, true, false, Option, none, some, List, [], ◌∷◌, ◌++◌, ltb, if◌then◌else◌,
  string_eq, length, set,
}
use gonggo.Glib.{Glib, find_index, remove_index, keys}

-- Two arrays with one index.
pub record ClientProxynameTableValue : Type 0 where
  pub request_uuids : List String
  pub sents : List Bool

module _ (G : Glib) where
  abbrev pub ProxynameTable : Type 0
  ProxynameTable = G.Table String ClientProxynameTableValue

  unfoldable pub client_proxyname_table_set : ProxynameTable → String → String → ProxynameTable
  client_proxyname_table_set t proxy rid = elim (G.lookup t proxy) [
    | none ↦ G.insert t proxy (record { request_uuids = rid ∷ []; sents = false ∷ [] })
    | some value ↦ elim (find_index value.request_uuids rid) [
      | some _ ↦ t
      | none ↦ G.insert t proxy (record {
        request_uuids = value.request_uuids ++ rid ∷ [];
        sents = value.sents ++ false ∷ [];
      })
    ]
  ]

  unfoldable pub client_proxyname_table_request_sent :
      ProxynameTable → String → String → ProxynameTable
  client_proxyname_table_request_sent t proxy rid = elim (G.lookup t proxy) [
    | none ↦ t
    | some value ↦ elim (find_index value.request_uuids rid) [
      | none ↦ t
      | some idx ↦ G.insert t proxy (record value { sents = set value.sents idx true })
    ]
  ]

  unfoldable pub client_proxyname_table_request_unsent : ProxynameTable → String → ProxynameTable
  client_proxyname_table_request_unsent t proxy = elim (G.lookup t proxy) [
    | none ↦ t
    | some value ↦ G.insert t proxy (record value { sents = all_unsent value.sents })
  ]

  -- Also says whether the request was there.
  unfoldable pub client_proxyname_table_drop :
      ProxynameTable → String → String → ProxynameTable × Bool
  client_proxyname_table_drop t proxy rid = elim (G.lookup t proxy) [
    | none ↦ (t, false)
    | some value ↦ elim (find_index value.request_uuids rid) [
      | none ↦ (t, false)
      | some idx ↦
          let rids = remove_index value.request_uuids idx in
          (
            if ltb (length rids) 1
                then G.remove t proxy
                else G.insert t proxy
                    (record { request_uuids = rids; sents = remove_index value.sents idx }),
            true,
          )
    ]
  ]

  -- The loop over the copied proxy names, which ends at the first that had the request.
  unfoldable pub drop_first : ProxynameTable → List String → String → ProxynameTable
  drop_first t [] rid = t
  drop_first t (proxy ∷ proxies) rid =
      let (t', found) = client_proxyname_table_drop t proxy rid in
      let rest = drop_first t' proxies rid in if found then t' else rest

  unfoldable pub client_proxyname_table_drop_all : ProxynameTable → String → ProxynameTable
  client_proxyname_table_drop_all t rid = drop_first t (keys (G.entries t)) rid

  unfoldable pub client_proxyname_table_request_dup :
      ProxynameTable → String → Bool → Option (List String)
  client_proxyname_table_request_dup t proxy not_sent_only = elim (G.lookup t proxy) [
    | none ↦ none
    | some value ↦
        some
          (if not_sent_only then not_sent value.request_uuids value.sents else value.request_uuids)
  ]

  -- The first proxy, in the iterator's order, that has the request.
  unfoldable pub find_proxy : List (String × ClientProxynameTableValue) → String → Option String
  find_proxy [] rid = none
  find_proxy ((proxy, value) ∷ rest) rid = elim (find_index value.request_uuids rid) [
    | some _ ↦ some proxy
    | none ↦ find_proxy rest rid
  ]

  unfoldable pub client_proxyname_table_proxy_name_dup : ProxynameTable → String → Option String
  client_proxyname_table_proxy_name_dup t rid = find_proxy (G.entries t) rid
