-- ===== src/Lib.antt =====
-- gonggo is a message dispatcher: WebSocket clients send JSON requests, gonggo hands each to a proxy
-- process through shared memory, and brings the proxy's answers back. Its code is under gear/ and
-- main/.
--
-- The program's parts and the files that model them:
--   Base, Glib, Json       shared helpers; GLib's hash tables and cJSON as interfaces
--   Client/Request         gear/clientrequesttable.c: which connection waits for a request
--   Client/Connection      gear/clientconnectiontable.c: the requests of each connection
--   Client/Service         gear/clientservicetable.c: the text of each request
--   Client/Proxyname       gear/clientproxynametable.c: the requests of each proxy, with a flag for
--                          those it was handed
--   Client/World           the tables together, and what has been sent, stored and signalled
--   Client/Invariant       what holds of the tables between any two handlers
--   Client/Reply           gear/clientreply.c: the messages to clients
--   Client/Route, Drop     gear/clientservice.c: what a message does, and the end of a connection
--   Client/Timeout         gear/clienttimeout.c: requests that have run out of time
--   Db                     gear/db.c: the stored responses
--   Conf                   gear/confvar.c: the configuration file
--   Proxy/Subscribe        gear/proxysubscribe.c: the answers of a proxy
--   Proxy/Channel          gear/proxychannel.c: how requests are handed to a proxy
--   Proxy/Names, Thread    gear/proxy.c, gear/proxyterminator.c, gear/proxyterminatearray.c,
--                          gear/proxyalive.c and the three thread tables: how a proxy's threads end
--   Http, Rest             gear/resthandler.c: HTTP requests to a proxy; Proxy/Channel/Respond has
--                          proxy_channel_rest of gear/proxychannel.c, which hands them on
--   Proxy/Activator        the state of gear/proxyactivator.c, and what it finds and does
--   Proxy/Activation       gear/proxyactivator.c: how a proxy that starts gets its threads
--   System                 the server as one step relation: callbacks of gear/wshandler.c and turns of
--                          all threads in any order; Phases is the abstract machine of one proxy
--   Shm                    gear/alivemutex.c and the segments of shared memory that are opened
--   Work, Main             gear/work.c and main/main.c: start and stop of the process
--   Log                    gear/log.c
--   Db/Drain               gear/dbresponddrain.c
--   Tests                  the theorems on concrete data
--
-- State and operations. A C function that changes a table is a function from the table to the
-- table, of the C function's name; a handler is a function on `World`, which composes them in the
-- source's order. A function that holds a lock from start to end is one step. A pointer that may be
-- NULL is an `Option`, but for a connection, which is an address with 0 for NULL. A thread is
-- one turn of its loop, `..._turn`, and the loop over a list of turns, each of which says what the
-- waits give and what others have done by then. `System.Step` has one constructor for each such turn.
--
-- Code that is not in the repository is a parameter. `Glib` has the operations on hash tables with
-- the laws of GLib's documentation, and leaves the order of an iterator open; `Glib/Assoc` meets
-- it. `Cjson` has the calls of cJSON without laws. What SQLite's calls return, what the pthread
-- calls return and what the proxy has written by then, the content of a shared-memory segment, the
-- identifiers, and the length of a text in bytes are arguments of the functions that use them.
--
-- Bounds. Loops are recursions on the list that is walked, so there is no fuel. C's `time_t` and
-- `int` are taken as wide enough for times and counts; `strtol` is clamped to 63 bits as in C. Where
-- the source subtracts, the model subtracts under the source's own test, or a number that is not
-- larger.
--
-- Not modelled: the wait of the terminator for its signal, the identifiers (gear/gonggouuid.c, a call
-- of libuuid), the copies of strings (gear/strarr.c, gear/util.c), which are lists here, GLib's own
-- functions (gear/glibshim.c), and the set-up of mutexes and conditions. A step of `System` is a whole
-- handler or turn, though the source takes the locks of several tables one after the other within it:
-- what other threads do in between is modelled for the time-out of a request only, in
-- Client/Timeout/Race. `System` takes it that a proxy leaves
-- its name in the shared memory until its activation is answered.
pub mod Base
pub mod Glib
pub mod Json
pub mod Db
pub mod Conf
pub mod Client
pub mod Proxy
pub mod Http
pub mod Rest
pub mod System
pub mod Shm
pub mod Log
pub mod Work
pub mod Main
pub mod Tests
