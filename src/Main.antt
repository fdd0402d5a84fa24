-- ===== src/Main.antt =====
-- main/main.c: the command line, the start of the server in a process of its own, and its stop by
-- the number in the pid file. `getopt_long` is outside: the model starts from its results.
pub mod Pid
use gonggo.Base.{
  ℕ, ◌+◌, ◌-◌, ◌/◌, ◌%◌, ◌^◌, String, Bool, true, false, Option, none, some, List, [], ◌∷◌, ◌++◌,
  if◌then◌else◌, ◌==◌, ltb, leb, codes, nat_eq, bytes_eq,
}
use Prim.Native.Nat.{zero, suc}
use gonggo.Base.Int.{ℤ, pos, negsuc}
use gonggo.Conf.{ConfVar, Validated, valid, refused, confvar_value, strtol}
use gonggo.Work.{Boot, work}

pub data Argument : Type 0 where
  conf : List ℕ → Argument
  help stop unknown : Argument

-- The variables that the loop over the arguments sets.
pub record Options : Type 0 where
  pub help_asked : Bool
  pub stop_asked : Bool
  pub confpath : Option (List ℕ)

unfoldable pub read_options : Options → List Argument → Options
read_options o [] = o
read_options o (conf path ∷ rest) = read_options (record o { confpath = some path }) rest
read_options o (help ∷ rest) = read_options (record o { help_asked = true }) rest
read_options o (stop ∷ rest) = read_options (record o { stop_asked = true }) rest
read_options o (unknown ∷ rest) = read_options o rest

-- `snprintf(buff, BUFLEN, "%d", pid)` for a process number: digits, the last one first put down.
-- The fuel is above the number, which has fewer digits; a `pid_t` has at most ten, fewer than
-- BUFLEN.
unfoldable pub put_digits : ℕ → ℕ → List ℕ → List ℕ
put_digits zero n acc = acc
put_digits (suc fuel) n acc =
    let rest = put_digits fuel (n / 10) ((b'0' + n % 10) ∷ acc) in
    if ltb n 10 then (b'0' + n) ∷ acc else rest

unfoldable pub print_pid : ℕ → List ℕ
print_pid pid = put_digits (pid + 1) pid []

-- `fgets`: up to `size` bytes, and no further than a line's end.
unfoldable pub fgets : ℕ → List ℕ → List ℕ
fgets zero bytes = []
fgets (suc size) [] = []
fgets (suc size) (b ∷ bytes) =
    let rest = fgets size bytes in if b == b'\n' then b ∷ [] else b ∷ rest

-- BUFLEN - 1
abbrev pub line_size : ℕ
line_size = 49

abbrev pub int_range : ℤ → Bool
int_range (pos n) = ltb n (2 ^ 31)
int_range (negsuc n) = ltb n (2 ^ 31)

-- Beyond the range of `int`, C leaves open what `atoi` gives: `narrow`.
unfoldable pub atoi : (ℤ → ℤ) → List ℕ → ℤ
atoi narrow s = let z = (strtol s).value in if int_range z then z else narrow z

-- What `fork` gives: -1, the number of the child, or 0 in the child, whose number `getpid` gives.
pub data Fork : Type 0 where
  failed : Fork
  parent child : ℕ → Fork

-- What else the process meets: the pid file to read, what the buffer holds before it is written, and
-- the calls on the pid file to write.
pub record Surroundings : Type 0 where
  pub pid_content : Option (List ℕ)
  pub junk : List ℕ
  pub narrow : ℤ → ℤ
  pub fork : Fork
  pub opened : Bool
  pub locked : Bool
  pub written : Bool
  pub boot : Boot

-- The exit status, whom SIGTERM goes to, and what is left in the pid file while the server works.
pub record Outcome : Type 0 where
  pub status : ℕ
  pub killed : Option ℤ
  pub pid_file : Option (List ℕ)

abbrev pub exit : ℕ → Outcome
exit status = record { status = status; killed = none; pid_file = none }

-- An empty file leaves the buffer as it was.
unfoldable pub stop_server : Surroundings → Outcome
stop_server s = elim s.pid_content [
  | none ↦ exit 2
  | some [] ↦ record (exit 0) { killed = some (atoi s.narrow s.junk) }
  | some (b ∷ bytes) ↦ record (exit 0) {
    killed = some (atoi s.narrow (fgets line_size (b ∷ bytes)));
  }
]

unfoldable pub run_child : Surroundings → ℕ → Outcome
run_child s pid =
    if s.opened
    then if s.locked
      then if s.written
        then record (exit (work s.boot).0) { pid_file = some (print_pid pid) }
        else exit 3
      else exit 3
    else exit 3

unfoldable pub start_server : Surroundings → Outcome
start_server s = elim s.fork [ failed ↦ exit 3 | parent pid ↦ exit 0 | child pid ↦ run_child s pid ]

-- `validate` is `confvar_validate` of the file at this path.
unfoldable pub main : (List ℕ → Validated) → List Argument → Surroundings → Outcome
main validate arguments s =
    let o =
      read_options (record { help_asked = false; stop_asked = false; confpath = none }) arguments in
    if o.help_asked then exit 0 else elim o.confpath [
      | none ↦ exit 1
      | some path ↦ elim (validate path) [
        | refused error ↦ exit 2
        | valid head stale ↦ if o.stop_asked then stop_server s else start_server s
      ]
    ]
