-- ===== src/Conf.antt =====
-- gear/confvar.c and confvar.h: the configuration file. Texts are lists of bytes; a pointer to a
-- text that may be NULL is an `Option`.
pub mod Text
pub mod Validate
use gonggo.Base.{
  ℕ, zero, suc, ◌+◌, ◌-◌, ◌*◌, ◌^◌, String, Bool, true, false, Option, none, some, List, [], ◌∷◌,
  if◌then◌else◌, ◌==◌, ◌||◌, ◌&&◌, ltb, leb, nat_eq, bytes_eq, codes,
}
use gonggo.Base.Int.{ℤ, pos, negsuc}

pub record ConfVar : Type 0 where
  pub name : List ℕ
  pub value : List ℕ

-- A C string ends at its first NUL.
unfoldable pub before : ℕ → List ℕ → List ℕ
before c [] = []
before c (b ∷ bs) = let rest = before c bs in if b == c then [] else b ∷ rest

-- What stands behind the first `c`, if there is one.
unfoldable pub behind : ℕ → List ℕ → Option (List ℕ)
behind c [] = none
behind c (b ∷ bs) = let rest = behind c bs in if b == c then some bs else rest

-- Blanks go, and a comment goes.
unfoldable pub squeeze_space : List ℕ → List ℕ
squeeze_space [] = []
squeeze_space (b ∷ bs) =
    let rest = squeeze_space bs in
    if b == b'#' then [] else if b == b' ' || b == 9 then rest else b ∷ rest

-- `strlen(val) > 0`
unfoldable pub make_var : List ℕ → List ℕ → Option ConfVar
make_var key [] = none
make_var key (b ∷ bs) = some (record { name = key; value = b ∷ bs })

-- The text up to the newline.
unfoldable pub parse_text : List ℕ → Option ConfVar
parse_text text = elim (behind b'=' text) [
  | none ↦ none
  | some val ↦ make_var (squeeze_space (before b'=' text)) (squeeze_space val)
]

unfoldable pub parse : List ℕ → Option ConfVar
parse line = parse_text (before 10 (before 0 line))

-- The loop over the lines that `getline` gives, each with its newline.
unfoldable pub create : List (List ℕ) → List ConfVar
create [] = []
create (line ∷ lines) =
    let rest = create lines in elim (parse line) [ none ↦ rest | some cv ↦ cv ∷ rest ]

-- `none` is a file that cannot be opened; the empty list is NULL.
unfoldable pub confvar_create : Option (List (List ℕ)) → List ConfVar
confvar_create none = []
confvar_create (some lines) = create lines

unfoldable pub confvar_value : List ConfVar → List ℕ → Option (List ℕ)
confvar_value [] key = none
confvar_value (cv ∷ rest) key = if cv.name == key then some cv.value else confvar_value rest key

abbrev pub mandatory : List String
mandatory =
    "pidfile" ∷ "logpath" ∷ "port" ∷ "gonggo" ∷ "dbpath" ∷ "responddrainoverdue"
    ∷ "responddrainperiod" ∷ "respondquerysize" ∷ "clienttimeoutperiod" ∷ "pingms" ∷ []

-- The first key that is missing.
unfoldable pub first_absent : List ConfVar → List String → Option String
first_absent head [] = none
first_absent head (key ∷ keys) =
    let rest = first_absent head keys in
    elim (confvar_value head (codes key)) [ none ↦ some key | some _ ↦ rest ]

unfoldable pub confvar_absent : List ConfVar → Option String
confvar_absent head = first_absent head mandatory

-- `strtol` in base 10: `isspace`, a sign, digits.
unfoldable pub is_space : ℕ → Bool
is_space b = b == b' ' || (leb 9 b && leb b 13)

unfoldable pub is_digit : ℕ → Bool
is_digit b = leb b'0' b && leb b b'9'

unfoldable pub skip_space : List ℕ → List ℕ
skip_space [] = []
skip_space (b ∷ bs) = let rest = skip_space bs in if is_space b then rest else b ∷ bs

unfoldable pub read_digits : ℕ → List ℕ → ℕ × List ℕ
read_digits acc [] = (acc, [])
read_digits acc (b ∷ bs) =
    let rest = read_digits (acc * 10 + (b - b'0')) bs in if is_digit b then rest else (acc, b ∷ bs)

-- The value (clamped), the text behind it, and whether it was out of range.
pub record Strtol : Type 0 where
  pub value : ℤ
  pub endptr : List ℕ
  pub erange : Bool

abbrev pub long_max : ℕ
long_max = 2 ^ 63 - 1

unfoldable pub signed_long : Bool → ℕ → List ℕ → Strtol
signed_long false n rest =
    if ltb long_max n
    then record { value = pos long_max; endptr = rest; erange = true }
    else record { value = pos n; endptr = rest; erange = false }
signed_long true zero rest = record { value = pos 0; endptr = rest; erange = false }
signed_long true (suc n) rest =
    if ltb long_max n
    then record { value = negsuc long_max; endptr = rest; erange = true }
    else record { value = negsuc n; endptr = rest; erange = false }

-- Where no digit follows, nothing is read.
unfoldable pub read_long : Bool → List ℕ → List ℕ → Strtol
read_long negative [] whole = record { value = pos 0; endptr = whole; erange = false }
read_long negative (b ∷ bs) whole =
    if is_digit b
    then (let (n, rest) = read_digits 0 (b ∷ bs) in signed_long negative n rest)
    else record { value = pos 0; endptr = whole; erange = false }

unfoldable pub strtol_unspaced : List ℕ → List ℕ → Strtol
strtol_unspaced [] whole = record { value = pos 0; endptr = whole; erange = false }
strtol_unspaced (b ∷ bs) whole =
    if b == b'-'
    then read_long true bs whole
    else if b == b'+'
    then read_long false bs whole
    else read_long false (b ∷ bs) whole

unfoldable pub strtol : List ℕ → Strtol
strtol s = strtol_unspaced (skip_space s) s

abbrev pub is_end : List ℕ → Bool
is_end [] = true
is_end (b ∷ bs) = false

-- `stale` says that `errno` is ERANGE before the call. The result, the number, if one is written to
-- `value`, and whether `errno` is ERANGE after it.
unfoldable pub confvar_long : List ConfVar → List ℕ → Bool → Bool × Option ℤ × Bool
confvar_long head key stale = elim (confvar_value head key) [
  | none ↦ (false, none, stale)
  | some s ↦
      let r = strtol s in
      if stale || r.erange then (false, none, true) else (is_end r.endptr, some r.value, false)
]

pub data ConfError : Type 0 where
  invalid_content : ConfError
  absent_key invalid_number not_positive negative_number : String → ConfError

-- The list, or the error that is reported; `errno` goes along.
pub data Validated : Type 0 where
  valid : List ConfVar → Bool → Validated
  refused : ConfError → Validated

abbrev pub is_positive : ℤ → Bool
is_positive (pos n) = ltb 0 n
is_positive (negsuc n) = false

abbrev pub is_negative : ℤ → Bool
is_negative (pos n) = false
is_negative (negsuc n) = true

-- The variable `l`, which is 0 unless `confvar_long` writes it.
abbrev pub written : Option ℤ → ℤ
written none = pos 0
written (some l) = l

-- One of the four keys whose value must be positive: the rest is done only if it is.
unfoldable pub check_positive : List ConfVar → String → Bool → (Bool → Validated) → Validated
check_positive head key stale next =
    let (good, l, stale') = confvar_long head (codes key) stale in
    if good
    then (if is_positive (written l) then next stale' else refused (not_positive key))
    else refused (invalid_number key)

unfoldable pub check_ping : List ConfVar → Bool → Validated
check_ping head stale =
    let (good, l, stale') = confvar_long head (codes "pingms") stale in
    if good
    then (if is_negative (written l) then refused (negative_number "pingms") else valid head stale')
    else refused (invalid_number "pingms")

unfoldable pub check_numbers : List ConfVar → Bool → Validated
check_numbers head stale = check_positive head "responddrainoverdue" stale λ stale1.
    check_positive head "responddrainperiod" stale1 λ stale2.
      check_positive head "respondquerysize" stale2
        λ stale3. check_positive head "clienttimeoutperiod" stale3 λ stale4. check_ping head stale4

unfoldable pub check_vars : List ConfVar → Bool → Validated
check_vars [] stale = refused invalid_content
check_vars (cv ∷ rest) stale = elim (confvar_absent (cv ∷ rest)) [
  | some key ↦ refused (absent_key key)
  | none ↦ check_numbers (cv ∷ rest) stale
]

unfoldable pub confvar_validate : Option (List (List ℕ)) → Bool → Validated
confvar_validate file stale = check_vars (confvar_create file) stale
