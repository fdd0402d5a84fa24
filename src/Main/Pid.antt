-- ===== src/Main/Pid.antt =====
-- main/main.c: the number in the pid file, as it is written and read.
use gonggo.Base.{
  ◌&&◌, ap, ℕ, ◌≡◌, ◌<◌, ◌≤◌, ◌+◌, ◌*◌, ◌/◌, ◌%◌, ◌^◌, refl, Bool, true, false, some, List, [], ◌∷◌,
  arith, ltb, leb, Bool-cases, inl, inr, ◌∙◌, nat_eq, length,
}
use Prim.Native.Nat.{zero, suc}
use gonggo.Base.Int.{ℤ, pos}
use gonggo.Conf.{
  is_digit, is_space, read_digits, skip_space, strtol, strtol_unspaced, read_long, signed_long,
  Validated, valid, ConfVar,
}
use gonggo.Main.{
  read_options, put_digits, print_pid, fgets, line_size, atoi, Surroundings, stop_server, run_child,
  start_server, main, child, stop, conf,
}

read_digit :
    (a d m : ℕ) (rest : List ℕ)
    → d < 10
    → m ≡ a * 10 + d
    → read_digits a ((48 + d) ∷ rest) ≡ read_digits m rest
unfolding read_digits is_digit
read_digit a d m rest h e = ground (arith, h, e)

-- What is printed is read back.
read_digits-put_digits :
    (fuel n : ℕ) (rest : List ℕ)
    → n < fuel
    → read_digits 0 (put_digits fuel n rest) ≡ read_digits n rest
unfolding put_digits
read_digits-put_digits zero n rest h = absurd (omega (arith, h))
read_digits-put_digits (suc fuel) n rest h = elim (Bool-cases (ltb n 10)) [
  | inl e ↦ rw (e, put_digits) (read_digit 0 n n rest (ground (arith, e)) (omega arith))
  | inr e ↦
      rw (e, put_digits)
        (read_digits-put_digits fuel (n / 10) ((48 + n % 10) ∷ rest) (ground (arith, e, h))
          ∙ read_digit (n / 10) (n % 10) n rest (omega arith) (omega arith))
]

-- Bytes that are digits.
abbrev all_digits : List ℕ → Bool
all_digits [] = true
all_digits (b ∷ bs) = (leb 48 b && leb b 57) && all_digits bs

abbrev is_cons : List ℕ → Bool
is_cons [] = false
is_cons (b ∷ bs) = true

put_digits-digits :
    (fuel n : ℕ) (rest : List ℕ)
    → n < fuel
    → all_digits rest ≡ true
    → (all_digits (put_digits fuel n rest) ≡ true) × (is_cons (put_digits fuel n rest) ≡ true)
unfolding put_digits
put_digits-digits zero n rest h d = absurd (omega (arith, h))
put_digits-digits (suc fuel) n rest h d = elim (Bool-cases (ltb n 10)) [
  | inl e ↦ rw (e, put_digits) ((ground (arith, e, d), refl))
  | inr e ↦
      rw (e, put_digits)
        (put_digits-digits fuel (n / 10) ((48 + n % 10) ∷ rest) (ground (arith, e, h))
          (ground (arith, d)))
]

abbrev pow10 : ℕ → ℕ
pow10 zero = 1
pow10 (suc k) = 10 * pow10 k

put_digits-length :
    (fuel k n : ℕ) (rest : List ℕ)
    → n < fuel
    → n < pow10 (suc k)
    → length (put_digits fuel n rest) ≤ length rest + suc k
unfolding put_digits
put_digits-length zero k n rest h p = absurd (omega (arith, h))
put_digits-length (suc fuel) zero n rest h p = ground (arith, h, p)
put_digits-length (suc fuel) (suc k) n rest h p = elim (Bool-cases (ltb n 10)) [
  | inl e ↦ rw (e, put_digits) (omega arith)
  | inr e ↦
      rw (e, put_digits)
        (omega (
          arith,
          put_digits-length fuel k (n / 10) ((48 + n % 10) ∷ rest) (ground (arith, e, h))
              (omega (arith, p)),
        ))
]

-- A line of digits that fits is taken whole.
fgets-digits :
    (size : ℕ) (bs : List ℕ) → all_digits bs ≡ true → length bs ≤ size → fgets size bs ≡ bs
unfolding fgets
fgets-digits zero [] d h = refl
fgets-digits zero (b ∷ bs) d h = absurd (omega (arith, h))
fgets-digits (suc size) [] d h = refl
fgets-digits (suc size) (b ∷ bs) d h =
    ground (arith, d, h, fgets-digits size bs (ground (arith, d)) (ground (arith, h)))

strtol-digits :
    (bs : List ℕ) (n : ℕ)
    → all_digits bs ≡ true
    → is_cons bs ≡ true
    → read_digits 0 bs ≡ (n, [])
    → n < 2 ^ 63
    → (strtol bs).value ≡ pos n
unfolding strtol skip_space strtol_unspaced read_long signed_long is_space is_digit
strtol-digits [] n d c r h = absurd (ground (arith, c))
strtol-digits (b ∷ bs) n d c r h = ground (arith, d, r, h)

-- The number that a process writes into its file is the number that `atoi` reads from it.
atoi-print_pid :
    (narrow : ℤ → ℤ) (pid : ℕ)
    → pid < 2 ^ 31
    → atoi narrow (fgets line_size (print_pid pid)) ≡ pos pid
unfolding print_pid atoi read_digits
atoi-print_pid narrow pid h =
    let bs = put_digits (pid + 1) pid [] in
    let (digits, cons) = put_digits-digits (pid + 1) pid [] (omega arith) refl in
    let short = put_digits-length (pid + 1) 9 pid [] (omega arith) (omega (arith, h)) in
    let whole = fgets-digits line_size bs digits (omega (arith, short)) in
    let value : (strtol (fgets line_size bs)).value ≡ pos pid = rw whole (
      strtol-digits bs pid digits cons (read_digits-put_digits (pid + 1) pid [] (omega arith))
        (omega (arith, h))) in
    ground (arith, value, h)

stop_server-cons :
    (s : Surroundings) (bs : List ℕ)
    → s.pid_content ≡ some bs
    → is_cons bs ≡ true
    → ((stop_server s).killed ≡ some (atoi s.narrow (fgets line_size bs)))
      × ((stop_server s).status ≡ 0)
unfolding stop_server
stop_server-cons s [] e c = absurd (ground (arith, c))
stop_server-cons s (b ∷ bs) e c = (rw e refl, rw e refl)

print_pid-cons : (pid : ℕ) → is_cons (print_pid pid) ≡ true
unfolding print_pid
print_pid-cons pid = (put_digits-digits (pid + 1) pid [] (omega arith) refl).1

-- A server that was started from a configuration, in a process with the number `pid`, leaves a file
-- with which a later call with the option `stop` sends SIGTERM to this very process, and that call
-- exits with 0.
pub main-stops :
    (validate : List ℕ → Validated) (path : List ℕ) (head : List ConfVar) (stale : Bool)
    (s s' : Surroundings) (pid : ℕ)
    → validate path ≡ valid head stale
    → pid < 2 ^ 31
    → s.fork ≡ child pid
    → s.opened ≡ true
    → s.locked ≡ true
    → s.written ≡ true
    → s'.pid_content ≡ (main validate (conf path ∷ []) s).pid_file
    → let stopped = main validate (conf path ∷ stop ∷ []) s' in
      (stopped.killed ≡ some (pos pid)) × (stopped.status ≡ 0)
unfolding main read_options start_server run_child stop_server
main-stops validate path head stale s s' pid v h f o l w c =
    let content : s'.pid_content ≡ some (print_pid pid) = c ∙ ground (arith, v, f, o, l, w) in
    let (killed, status) = stop_server-cons s' (print_pid pid) content (print_pid-cons pid) in
    rw v ((killed ∙ ap some (atoi-print_pid s'.narrow pid h), status))
