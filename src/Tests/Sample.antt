-- ===== src/Tests/Sample.antt =====
-- A small model of cJSON, and messages in it.
use gonggo.Base.{
  ℕ, String, Bool, true, false, Option, none, some, List, [], ◌∷◌, if◌then◌else◌, ◌==◌, string_eq,
  bytes_eq, nat_eq,
}
use gonggo.Base.Int.{ℤ, pos}
use gonggo.Json.{Cjson}
use gonggo.Glib.Assoc.{assoc}
use gonggo.Client.World.{World}
use gonggo.Db.{RespondQueryResult, empty_result}

-- An array is a chain of cells, an object one of fields.
pub data Doc : Type 0 where
  end : Doc
  text : String → Doc
  number : ℤ → Doc
  cell : Doc → Doc → Doc
  field : String → Doc → Doc → Doc

abbrev pub get : Doc → String → Option Doc
get (field key value rest) name = if key == name then some value else get rest name
get _ name = none

abbrev pub string_of : Doc → Option String
string_of (text s) = some s
string_of _ = none

abbrev pub number_of : Doc → ℤ
number_of (number z) = z
number_of _ = pos 0

abbrev pub is_cell : Doc → Bool
is_cell (cell a b) = true
is_cell _ = false

abbrev pub is_text : Doc → Bool
is_text (text s) = true
is_text _ = false

abbrev pub cells : Doc → List Doc
cells (cell a b) = a ∷ cells b
cells _ = []

abbrev pub names : Doc → List String
names (field key value rest) = key ∷ names rest
names _ = []

abbrev pub add_field : Doc → String → Doc → Doc
add_field (field k v rest) name value = field k v (add_field rest name value)
add_field _ name value = field name value end

abbrev pub add_cell : Doc → Doc → Doc
add_cell (cell a b) value = cell a (add_cell b value)
add_cell _ value = cell value end

-- A message to a proxy, an answer of it, and what is no JSON.
abbrev pub request_doc : Doc
request_doc =
    field "headers"
      (field "rid" (text "r1") (
        field "proxy" (text "p1")
          (field "service" (text "s1") (field "timeout" (number (pos 9)) end))))
      end

abbrev pub answer_doc : Doc
answer_doc =
    field "rid" (cell (text "r1") (cell (text "r2") end))
      (field "headers" (field "x" (text "y") end) end)

abbrev pub read : String → Option Doc
read s =
    if s == "request" then some request_doc else if s == "answer" then some answer_doc else none

abbrev pub print : Doc → String
print (text s) = s
print (field key value rest) = print value
print (cell a b) = print a
print _ = "{}"

abbrev pub sample : Cjson
sample = record {
  Json = Doc;
  parse = read;
  print_unformatted = print;
  get_object_item = get;
  valuestring = string_of;
  valueint = number_of;
  valuedouble = number_of;
  is_array = is_cell;
  is_string = is_text;
  array_items = cells;
  fields = names;
  create_object = end;
  create_array = end;
  create_string = text;
  create_number = λ n. number (pos n);
  add_item_to_object = add_field;
  add_item_to_array = add_cell;
}

-- A server that has just started: the channel thread of the proxy "p1" is number 7.
abbrev pub started : World assoc
started = record {
  requests = [];
  connections = [];
  services = [];
  proxynames = [];
  channels = ("p1", 7) ∷ [];
  alives = ("p1", 8) ∷ [];
  writes = [];
  saves = [];
  wakeups = [];
  uuids = 0;
  now = 100;
}

abbrev pub no_rows : String → ℕ → ℕ → Bool × RespondQueryResult
no_rows rid start size = (true, empty_result)

abbrev pub headers_doc : Doc
headers_doc = field "x" (text "y") end

abbrev pub items_doc : List Doc
items_doc = text "r1" ∷ text "r2" ∷ []

abbrev pub root_doc : Doc
root_doc = request_doc

abbrev pub request_headers_doc : Doc
request_headers_doc =
    field "rid" (text "r1") (
      field "proxy" (text "p1")
        (field "service" (text "s1") (field "timeout" (number (pos 9)) end)))

abbrev pub time_doc : Doc
time_doc = number (pos 9)
