-- ===== src/Client/Service.antt =====
-- gear/clientservicetable.c: what each request asks for, as the text that the proxy will read.
use gonggo.Base.{String, Option, none, some, string_eq}
use gonggo.Glib.{Glib}
use gonggo.Json.{Cjson}

unfoldable pub client_service_table_service_payload_create :
    (C : Cjson) → String → Option C.Json → String
client_service_table_service_payload_create C service_name payload =
    let j = C.add_item_to_object C.create_object "service" (C.create_string service_name) in
    C.print_unformatted (elim payload [ none ↦ j | some p ↦ C.add_item_to_object j "payload" p ])

module _ (G : Glib) where
  abbrev pub ServiceTable : Type 0
  ServiceTable = G.Table String String

  unfoldable pub client_service_table_set :
      (C : Cjson) → ServiceTable → String → String → Option C.Json → ServiceTable
  client_service_table_set C t rid service_name payload =
      G.insert (G.remove t rid) rid
        (client_service_table_service_payload_create C service_name payload)

  unfoldable pub client_service_table_dup : ServiceTable → String → Option String
  client_service_table_dup t rid = G.lookup t rid

  unfoldable pub client_service_table_remove : ServiceTable → String → ServiceTable
  client_service_table_remove t rid = G.remove t rid
