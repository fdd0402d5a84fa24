-- ===== src/Rest/Query.antt =====
-- gear/resthandler.c: the parameters of a GET request.
use Prim.Native.Char.{Char, code}
use gonggo.Base.{
  ℕ, ◌≡◌, ◌≢◌, refl, String, Bool, true, false, some, List, [], ◌∷◌, arith, if◌then◌else◌, ◌==◌,
  nat_eq,
}
use gonggo.Http.{split_at, split_all, rest_param_parse, rest_params, append_text}

-- The text is without the character.
abbrev pub is_absent : ℕ → String → Bool
is_absent c String.[] = true
is_absent c (String.◌∷◌ x s) = if code x == c then false else is_absent c s

split_all_absent : (c : ℕ) (s : String) → is_absent c s ≡ true → split_all c s ≡ s ∷ []
unfolding split_all
split_all_absent c String.[] h = refl
split_all_absent c (String.◌∷◌ x s) h = ground (arith, h, split_all_absent c s)

split_all-append_text :
    (s t : String) (d : Char)
    → is_absent (code d) s ≡ true
    → split_all (code d) (append_text s (String.◌∷◌ d t)) ≡ s ∷ split_all (code d) t
unfolding split_all append_text
split_all-append_text String.[] t d h = ground arith
split_all-append_text (String.◌∷◌ x s) t d h = ground (arith, h, split_all-append_text s t d)

split_at-append_text :
    (s t : String) (d : Char)
    → is_absent (code d) s ≡ true
    → split_at (code d) (append_text s (String.◌∷◌ d t)) ≡ (s, some t)
unfolding split_at append_text
split_at-append_text String.[] t d h = ground arith
split_at-append_text (String.◌∷◌ x s) t d h = ground (arith, h, split_at-append_text s t d)

is_absent-append_text :
    (c : ℕ) (s t : String) (d : Char)
    → is_absent c s ≡ true
    → is_absent c t ≡ true
    → code d ≢ c
    → is_absent c (append_text s (String.◌∷◌ d t)) ≡ true
unfolding append_text
is_absent-append_text c String.[] t d h h' ne = ground (arith, h', ne)
is_absent-append_text c (String.◌∷◌ x s) t d h h' ne =
    ground (arith, h, h', ne, is_absent-append_text c s t d)

-- A parameter as a client writes it, and a list of them.
abbrev pub param_text : String → String → String
param_text key value = append_text key (String.◌∷◌ "=" value)

abbrev pub query_text : List (String × String) → String
query_text [] = String.[]
query_text ((key, value) ∷ []) = param_text key value
query_text ((key, value) ∷ p ∷ rest) =
    append_text (param_text key value) (String.◌∷◌ "&" (query_text (p ∷ rest)))

-- A key is not empty and without `=`, and neither it nor the value has an `&`.
pub record IsParam (key value : String) : Type 0 where
  pub filled : key ≢ String.[]
  pub key_no_equals : is_absent b'=' key ≡ true
  pub key_no_and : is_absent b'&' key ≡ true
  pub value_no_and : is_absent b'&' value ≡ true

abbrev pub AreParams : List (String × String) → Type 0
AreParams [] = Unit
AreParams ((key, value) ∷ rest) = IsParam key value × AreParams rest

rest_param_parse-param_text :
    (key value : String)
    → IsParam key value
    → rest_param_parse (param_text key value) ≡ (key, value) ∷ []
unfolding rest_param_parse append_text
rest_param_parse-param_text String.[] value p = absurd (p.filled refl)
rest_param_parse-param_text (String.◌∷◌ x s) value p =
    rw (split_at-append_text (String.◌∷◌ x s) value "=" p.key_no_equals) refl

param_text-is_absent :
    (key value : String) → IsParam key value → is_absent b'&' (param_text key value) ≡ true
param_text-is_absent key value p =
    is_absent-append_text b'&' key value "=" p.key_no_and p.value_no_and (ground arith)

-- Parameters that are written with `=` and `&` are read back, all of them and in their order.
pub rest_params-query_text :
    (key value : String) (rest : List (String × String))
    → AreParams ((key, value) ∷ rest)
    → rest_params (split_all b'&' (query_text ((key, value) ∷ rest))) ≡ (key, value) ∷ rest
unfolding rest_params
rest_params-query_text key value [] (p, _) =
    rw
      (
        split_all_absent b'&' (param_text key value) (param_text-is_absent key value p),
        rest_param_parse-param_text key value p,
      )
      refl
rest_params-query_text key value ((k, v) ∷ rest) (p, ps) =
    rw
      (
        split_all-append_text (param_text key value) (query_text ((k, v) ∷ rest)) "&"
            (param_text-is_absent key value p),
        rest_param_parse-param_text key value p,
        rest_params-query_text k v rest ps,
      )
      refl
