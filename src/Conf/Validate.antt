-- ===== src/Conf/Validate.antt =====
-- gear/confvar.c: what a configuration that `confvar_validate` accepts contains.
use gonggo.Base.{
  ℕ, ◌≡◌, ◌≢◌, ◌<◌, refl, String, Bool, true, false, Option, none, some, List, [], ◌∷◌, arith,
  string_eq, contains, codes, Option-cases, inl, inr, sym, Bool-cases, subst,
}
use gonggo.Base.Int.{ℤ, pos, negsuc}
use gonggo.Conf.{
  ConfVar, confvar_value, first_absent, confvar_absent, mandatory, strtol, confvar_long, Validated,
  valid, check_positive, check_ping, check_numbers, check_vars, confvar_validate, confvar_create,
  is_positive, is_negative, written, is_end,
}

-- The value of the key is a number and nothing else, and `l` is that number.
pub record IsNumber (head : List ConfVar) (key : String) (l : ℤ) : Type 0 where
  pub text : List ℕ
  pub found : confvar_value head (codes key) ≡ some text
  pub reads : (strtol text).value ≡ l
  pub whole : is_end (strtol text).endptr ≡ true
  pub in_range : (strtol text).erange ≡ false

confvar_long-IsNumber :
    (head : List ConfVar) (key : String) (stale : Bool)
    → (confvar_long head (codes key) stale).0 ≡ true
    → IsNumber head key (written (confvar_long head (codes key) stale).1)
unfolding confvar_long
confvar_long-IsNumber head key stale h = elim (Option-cases (confvar_value head (codes key))) [
  | inl e ↦ absurd (ground (arith, e, h))
  | inr (s, e) ↦ record {
    text = s;
    found = e;
    reads = ground (arith, e, h);
    whole = ground (arith, e, h);
    in_range = ground (arith, e, h);
  }
]

first_absent-none :
    (head : List ConfVar) (keys : List String) (key : String)
    → first_absent head keys ≡ none
    → contains key keys ≡ true
    → confvar_value head (codes key) ≢ none
unfolding first_absent
first_absent-none head [] key h c e = absurd (ground (arith, c))
first_absent-none head (k ∷ keys) key h c e = elim (string_eq.dec key k) [
  | yes same ↦ ground (arith, h, e, subst (λ x. confvar_value head (codes x) ≡ none) same e)
  | no differ ↦ elim (Option-cases (confvar_value head (codes k))) [
    | inl miss ↦ ground (arith, h, miss)
    | inr (v, hit) ↦
        first_absent-none head keys key (ground (arith, h, hit)) (ground (arith, c, differ)) e
  ]
]

-- A number that is above 0.
pub record IsPositive (head : List ConfVar) (key : String) : Type 0 where
  pub amount : ℕ
  pub number : IsNumber head key (pos amount)
  pub above : 0 < amount

is_positive-pos : (l : ℤ) → is_positive l ≡ true → (n : ℕ) × (l ≡ pos n) × (0 < n)
is_positive-pos (pos n) h = (n, refl, ground (arith, h))
is_positive-pos (negsuc n) h = absurd (ground (arith, h))

not_negative-pos : (l : ℤ) → is_negative l ≡ false → (n : ℕ) × (l ≡ pos n)
not_negative-pos (pos n) h = (n, refl)
not_negative-pos (negsuc n) h = absurd (ground (arith, h))

check_positive-valid :
    (head out : List ConfVar) (key : String) (stale stale' : Bool) (next : Bool → Validated)
    → check_positive head key stale next ≡ valid out stale'
    → IsPositive head key × (next (confvar_long head (codes key) stale).2 ≡ valid out stale')
unfolding check_positive
check_positive-valid head out key stale stale' next h =
    elim (Bool-cases (confvar_long head (codes key) stale).0) [
      | inr bad ↦ absurd (ground (arith, h, bad))
      | inl good ↦
          elim (Bool-cases (is_positive (written (confvar_long head (codes key) stale).1))) [
            | inr bad ↦ absurd (ground (arith, h, bad, good))
            | inl above ↦
                let (n, same, above0) =
                  is_positive-pos (written (confvar_long head (codes key) stale).1) above in
                (
                  record {
                    amount = n;
                    number =
                        subst (IsNumber head key) same (confvar_long-IsNumber head key stale good);
                    above = above0;
                  },
                  ground (arith, h, good, above),
                )
          ]
    ]

check_ping-valid :
    (head out : List ConfVar) (stale stale' : Bool)
    → check_ping head stale ≡ valid out stale'
    → ((n : ℕ) × IsNumber head "pingms" (pos n)) × (out ≡ head)
unfolding check_ping
check_ping-valid head out stale stale' h =
    elim (Bool-cases (confvar_long head (codes "pingms") stale).0) [
      | inr bad ↦ absurd (ground (arith, h, bad))
      | inl good ↦
          elim (Bool-cases (is_negative (written (confvar_long head (codes "pingms") stale).1))) [
            | inl bad ↦ absurd (ground (arith, h, bad, good))
            | inr above ↦
                let (n, same) =
                  not_negative-pos (written (confvar_long head (codes "pingms") stale).1) above in
                (
                  (
                    n,
                    subst (IsNumber head "pingms") same
                        (confvar_long-IsNumber head "pingms" stale good),
                  ),
                  ground (arith, h, good, above),
                )
          ]
    ]

-- What the server reads from its configuration.
pub record IsChecked (head : List ConfVar) : Type 0 where
  pub present :
      (key : String) → contains key mandatory ≡ true → confvar_value head (codes key) ≢ none
  pub overdue : IsPositive head "responddrainoverdue"
  pub period : IsPositive head "responddrainperiod"
  pub query_size : IsPositive head "respondquerysize"
  pub timeout_period : IsPositive head "clienttimeoutperiod"
  pub ping : (n : ℕ) × IsNumber head "pingms" (pos n)

check_numbers-valid :
    (head out : List ConfVar) (stale stale' : Bool)
    → check_numbers head stale ≡ valid out stale'
    → confvar_absent head ≡ none
    → IsChecked head × (out ≡ head)
unfolding check_numbers confvar_absent
check_numbers-valid head out stale stale' h full =
    let (a, ha) = check_positive-valid head out "responddrainoverdue" stale stale' _ h in
    let (b, hb) = check_positive-valid head out "responddrainperiod" _ stale' _ ha in
    let (c, hc) = check_positive-valid head out "respondquerysize" _ stale' _ hb in
    let (d, hd) = check_positive-valid head out "clienttimeoutperiod" _ stale' _ hc in
    let (e, same) = check_ping-valid head out _ stale' hd in
    (
      record {
        present = λ key c. first_absent-none head mandatory key full c;
        overdue = a;
        period = b;
        query_size = c;
        timeout_period = d;
        ping = e;
      },
      same,
    )

check_vars-valid :
    (head out : List ConfVar) (stale stale' : Bool)
    → check_vars head stale ≡ valid out stale'
    → IsChecked head × (out ≡ head)
unfolding check_vars
check_vars-valid [] out stale stale' h = absurd (ground (arith, h))
check_vars-valid (cv ∷ rest) out stale stale' h = elim (Option-cases (confvar_absent (cv ∷ rest))) [
  | inl full ↦ check_numbers-valid (cv ∷ rest) out stale stale' (ground (arith, h, full)) full
  | inr (key, miss) ↦ absurd (ground (arith, h, miss))
]

-- A configuration that is accepted is the one in the file. It has every mandatory key, and its
-- drain age, drain period, page size and client timeout period are whole numbers in range above 0,
-- and its ping interval one that is at least 0.
pub confvar_validate-IsChecked :
    (file : Option (List (List ℕ))) (stale stale' : Bool) (out : List ConfVar)
    → confvar_validate file stale ≡ valid out stale'
    → IsChecked out × (out ≡ confvar_create file)
unfolding confvar_validate
confvar_validate-IsChecked file stale stale' out h =
    let (checked, same) = check_vars-valid (confvar_create file) out stale stale' h in
    (subst IsChecked (sym same) checked, same)
