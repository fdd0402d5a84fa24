-- ===== src/Proxy/Thread/Kill.antt =====
-- gear/proxy.c: which threads are left.
use gonggo.Base.{
  ℕ, ◌≡◌, refl, String, true, false, none, some, List, [], ◌∷◌, arith, ◌==◌, if◌then◌else◌,
  string_eq, contains, Option-cases, ◌∙◌, inl, inr, ap,
}
use gonggo.Glib.{Glib, keys, find_entry}
use gonggo.Proxy.Names.{proxy_thread_terminating_set}
use gonggo.Proxy.Thread.{
  ThreadTable, Threads, remove_if, proxy_thread_kill, kill_one, kill_each, proxy_thread_kill_all,
  proxy_alive_thread_table_char_keys_create,
}

pub contains-keys :
    (es : List (String × ℕ)) (j : String)
    → contains j (keys es) ≡ elim (find_entry es j) [ none ↦ false | some _ ↦ true ]
contains-keys [] j = refl
contains-keys ((k, v) ∷ es) j = ground (arith, contains-keys es j)

module _ (G : Glib) where
  lookup-remove_if :
      (t : ThreadTable G) (name j : String)
      → G.lookup (remove_if G t name (G.lookup t name)) j
        ≡ (if name == j then none else G.lookup t j)
  lookup-remove_if t name j = elim (Option-cases (G.lookup t name)) [
    | inl e ↦ elim (string_eq.dec name j) [
      | yes same ↦ ground (arith, e, same, ap (G.lookup t) same)
      | no differ ↦ ground (arith, e, differ)
    ]
    | inr (x, e) ↦ ground (arith, e, G.lookup-remove t name j)
  ]

module _ {G : Glib} where
  -- The names whose threads are gone, and what is as it was.
  pub record IsKilled (names : List String) (s s' : Threads G) : Type 0 where
    pub subscribes :
        (j : String)
        → G.lookup s'.subscribes j ≡ (if contains j names then none else G.lookup s.subscribes j)
    pub channels :
        (j : String)
        → G.lookup s'.world.channels j
          ≡ (if contains j names then none else G.lookup s.world.channels j)
    pub alives :
        (j : String)
        → G.lookup s'.world.alives j
          ≡ (if contains j names then none else G.lookup s.world.alives j)

  pub proxy_thread_kill-IsKilled :
      (s : Threads G) (name : String) → IsKilled (name ∷ []) s (proxy_thread_kill s name)
  unfolding proxy_thread_kill
  proxy_thread_kill-IsKilled s name = record {
    subscribes = λ j. lookup-remove_if G s.subscribes name j ∙ ground arith;
    channels = λ j. lookup-remove_if G s.world.channels name j ∙ ground arith;
    alives = λ j. lookup-remove_if G s.world.alives name j ∙ ground arith;
  }

  pub joined-IsKilled :
      {s s1 s2 : Threads G} {name : String} {names : List String}
      → IsKilled (name ∷ []) s s1
      → IsKilled names s1 s2
      → IsKilled (name ∷ names) s s2
  joined-IsKilled a b = record {
    subscribes = λ j. b.subscribes j ∙ ground (arith, a.subscribes j);
    channels = λ j. b.channels j ∙ ground (arith, a.channels j);
    alives = λ j. b.alives j ∙ ground (arith, a.alives j);
  }

  kill_one-IsKilled : (s : Threads G) (name : String) → IsKilled (name ∷ []) s (kill_one s name)
  unfolding kill_one
  kill_one-IsKilled s name =
      let marked = record s { terminating = proxy_thread_terminating_set s.terminating name } in
      let one = proxy_thread_kill-IsKilled marked name in
      record { subscribes = one.subscribes; channels = one.channels; alives = one.alives }

  kill_each-IsKilled : (s : Threads G) (names : List String) → IsKilled names s (kill_each s names)
  unfolding kill_each
  kill_each-IsKilled s [] = record {
    subscribes = λ j. refl;
    channels = λ j. refl;
    alives = λ j. refl;
  }
  kill_each-IsKilled s (name ∷ names) =
      joined-IsKilled (kill_one-IsKilled s name) (kill_each-IsKilled (kill_one s name) names)

  -- When the server stops, no proxy is watched any more, and exactly the proxies that were watched
  -- lose their threads: one that has a channel or a subscribe thread but no alive thread keeps it.
  pub proxy_thread_kill_all-threads :
      (s : Threads G) (j : String)
      → let s' = proxy_thread_kill_all s in
        (G.lookup s'.world.alives j ≡ none)
        × (G.lookup s'.world.channels j ≡ elim (G.lookup s.world.alives j) [
          | none ↦ G.lookup s.world.channels j
          | some _ ↦ none
        ])
        × (G.lookup s'.subscribes j
            ≡ elim (G.lookup s.world.alives j) [ none ↦ G.lookup s.subscribes j | some _ ↦ none ])
  unfolding proxy_thread_kill_all proxy_alive_thread_table_char_keys_create
  proxy_thread_kill_all-threads s j =
      let names = keys (G.entries s.world.alives) in
      let k = kill_each-IsKilled s names in
      let c = contains-keys (G.entries s.world.alives) j in
      let l = G.lookup-entries s.world.alives j in
      (
        k.alives j ∙ ground (arith, c, l),
        k.channels j ∙ ground (arith, c, l),
        k.subscribes j ∙ ground (arith, c, l),
      )
