-- ===== src/Client/World.antt =====
-- What the client side of the server shares: the four tables of requests, the tables of proxy
-- threads, and what goes out.
use gonggo.Base.{ℕ, String, List}
use gonggo.Glib.{Glib}
use gonggo.Client.Request.{Conn, RequestTable}
use gonggo.Client.Connection.{ConnectionTable}
use gonggo.Client.Service.{ServiceTable}
use gonggo.Client.Proxyname.{ProxynameTable}

-- `channels` and `alives` are the keys of the two thread tables that clients see, each with its
-- thread. `writes` are the calls of `mg_websocket_write`, `saves` those of `db_respond_insert`,
-- `wakeups` the signals to a proxy's channel thread, all in order. `uuids` counts the identifiers
-- made, and `now` is what `time(NULL)` gives.
pub record World (G : Glib) : Type 0 where
  pub requests : RequestTable G
  pub connections : ConnectionTable G
  pub services : ServiceTable G
  pub proxynames : ProxynameTable G
  pub channels : G.Table String ℕ
  pub alives : G.Table String ℕ
  pub writes : List (Conn × String)
  pub saves : List (String × String)
  pub wakeups : List String
  pub uuids : ℕ
  pub now : ℕ
