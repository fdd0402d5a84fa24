-- ===== src/Http.antt =====
-- gear/resthandler.c: the parts of a HTTP request that the handler reads.
use Prim.Native.Char.{Char, code}
use gonggo.Base.{
  ℕ, String, Bool, true, false, Option, none, some, List, [], ◌∷◌, ◌++◌, if◌then◌else◌, ◌==◌,
  string_eq, nat_eq,
}
use gonggo.Json.{Cjson}

-- The text up to the first `c`, and the text behind it if there is one.
unfoldable pub split_at : ℕ → String → String × Option String
split_at c String.[] = (String.[], none)
split_at c (String.◌∷◌ x s) =
    let (left, right) = split_at c s in
    if code x == c then (String.[], some s) else (String.◌∷◌ x left, right)

-- A character in front of the first part.
abbrev pub onto : Char → List String → List String
onto x [] = String.◌∷◌ x String.[] ∷ []
onto x (part ∷ parts) = String.◌∷◌ x part ∷ parts

-- The parts of a text between each `c`.
unfoldable pub split_all : ℕ → String → List String
split_all c String.[] = String.[] ∷ []
split_all c (String.◌∷◌ x s) =
    let rest = split_all c s in if code x == c then String.[] ∷ rest else onto x rest

-- One parameter: its key, and its value or "true".
unfoldable pub rest_param_parse : String → List (String × String)
rest_param_parse String.[] = []
rest_param_parse (String.◌∷◌ x s) =
    let (key, value) = split_at b'=' (String.◌∷◌ x s) in
    (key, elim value [ none ↦ "true" | some v ↦ v ]) ∷ []

-- The loop over the query, and the object that it makes.
unfoldable pub rest_params : List String → List (String × String)
rest_params [] = []
rest_params (part ∷ parts) = rest_param_parse part ++ rest_params parts

unfoldable pub param_object : (C : Cjson) → C.Json → List (String × String) → C.Json
param_object C json [] = json
param_object C json ((key, value) ∷ rest) =
    param_object C (C.add_item_to_object json key (C.create_string value)) rest

-- What of a HTTP request the handler reads; `chunks` is what `mg_read` gives, call by call.
pub record HttpRequest : Type 0 where
  pub local_uri : String
  pub request_method : String
  pub chunks : List String
  pub http_headers : List (String × String)
  pub query_string : Option String

-- The text behind the first character.
unfoldable pub skip_first : String → String
skip_first String.[] = String.[]
skip_first (String.◌∷◌ x s) = s

unfoldable pub append_text : String → String → String
append_text String.[] t = t
append_text (String.◌∷◌ x s) t = String.◌∷◌ x (append_text s t)

-- The loop over `mg_read`: NULL if nothing comes.
unfoldable pub read_payload : List String → Option String
read_payload [] = none
read_payload (chunk ∷ chunks) = elim (read_payload chunks) [
  | none ↦ some chunk
  | some rest ↦ some (append_text chunk rest)
]

-- `strstr(s, prefix) == s`
unfoldable pub starts_with : String → String → Bool
starts_with String.[] s = true
starts_with (String.◌∷◌ x p) String.[] = false
starts_with (String.◌∷◌ x p) (String.◌∷◌ y s) =
    let rest = starts_with p s in if code x == code y then rest else false

-- The first header of the name; `same` is `strcasecmp(a, b) == 0`.
unfoldable pub find_header :
    (String → String → Bool) → List (String × String) → String → Option String
find_header same [] name = none
find_header same ((key, value) ∷ rest) name =
    if same key name then some value else find_header same rest name
