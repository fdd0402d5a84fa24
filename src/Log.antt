-- ===== src/Log.antt =====
-- gear/log.c, `gonggo_log`: one file for each day of the week, which starts anew after a week. The
-- calls run under the log's lock, so each is one step.
use gonggo.Base.{
  ℕ, ◌+◌, ◌≤◌, ◌≡◌, ◌↔◌, refl, Bool, true, List, [], ◌∷◌, ◌++◌, arith, if◌then◌else◌, ◌&&◌, ◌==◌,
  nat_eq, length, length-append, codes, Option, none, some,
}

-- `tm_year`, `tm_mon` and `tm_mday`.
pub record Day : Type 0 where
  pub year : ℕ
  pub mon : ℕ
  pub mday : ℕ

abbrev pub same_day : Day → Day → Bool
same_day a b = a.year == b.year && (a.mon == b.mon && a.mday == b.mday)

-- A log file: the day of its birth or last change, and its lines, each with its day.
pub record LogFile : Type 0 where
  pub stamp : Day
  pub lines : List (Day × List ℕ)

-- What `stat` gives: the file, ENOENT, or another error.
pub data Stat : Type 0 where
  there : LogFile → Stat
  missing unreadable : Stat

-- `sprintf(filepath, "%s/%s-%s.log", ...)`
unfoldable pub log_filepath : List ℕ → List ℕ → List ℕ → List ℕ
log_filepath path name weekday =
    path ++ (codes "/" ++ (name ++ (codes "-" ++ (weekday ++ codes ".log"))))

-- The time, `" [%d] "` with the process, the level, `": "`, the text.
unfoldable pub log_line : List ℕ → List ℕ → List ℕ → List ℕ → List ℕ
log_line time pid level text =
    time ++ (codes " [" ++ (pid ++ (codes "] " ++ (level ++ (codes ": " ++ text)))))

-- The file as `open` leaves it: continued on the same day, emptied on another, or made.
unfoldable pub open_log : Day → Stat → Option LogFile
open_log now (there file) = some (
    if same_day now file.stamp
    then record file { stamp = now }
    else record { stamp = now; lines = [] })
open_log now missing = some (record { stamp = now; lines = [] })
open_log now unreadable = none

abbrev pub file_of : Stat → Option LogFile
file_of (there file) = some file
file_of missing = none
file_of unreadable = none

-- `opened` and `formatted` say whether `open`, and `vsnprintf` with its buffer, succeed, and the text
-- is not empty.
unfoldable pub gonggo_log :
    Day → Stat → Bool → Bool → List ℕ → List ℕ → List ℕ → List ℕ → Option LogFile
gonggo_log now stat opened formatted time pid level text =
    if opened
    then elim (open_log now stat) [
      | none ↦ file_of stat
      | some file ↦ some (
          if formatted
          then record file { lines = file.lines ++ (now, log_line time pid level text) ∷ [] }
          else file)
    ]
    else file_of stat

-- All lines are of this day.
abbrev pub all_of : Day → List (Day × List ℕ) → Bool
all_of day [] = true
all_of day ((d, line) ∷ rest) = same_day d day && all_of day rest

abbrev pub is_daily : Option LogFile → Bool
is_daily none = true
is_daily (some file) = all_of file.stamp file.lines

all_of-append :
    (day : Day) (xs ys : List (Day × List ℕ))
    → all_of day (xs ++ ys) ≡ (all_of day xs && all_of day ys)
all_of-append day [] ys = refl
all_of-append day ((d, line) ∷ xs) ys = ground (arith, all_of-append day xs ys)

all_of-same :
    (a b : Day) (xs : List (Day × List ℕ)) → same_day a b ≡ true → all_of a xs ≡ all_of b xs
all_of-same a b [] h = refl
all_of-same a b ((d, line) ∷ xs) h = ground (arith, h, all_of-same a b xs h)

-- A log file that holds the lines of one day only still does behind every call, on whatever day,
-- and whichever of the calls fail: the lines of last week are never continued.
pub gonggo_log-is_daily :
    (now : Day) (stat : Stat) (opened formatted : Bool) (time pid level text : List ℕ)
    → is_daily (file_of stat) ≡ true
    → is_daily (gonggo_log now stat opened formatted time pid level text) ≡ true
unfolding gonggo_log open_log
gonggo_log-is_daily now missing opened formatted time pid level text h = ground arith
gonggo_log-is_daily now unreadable opened formatted time pid level text h = ground arith
gonggo_log-is_daily now (there file) opened formatted time pid level text h = ground (
  arith,
  h,
  all_of-append now file.lines ((now, log_line time pid level text) ∷ []),
  all_of-same now file.stamp file.lines,
)

-- The path of the log file, with its end, fits the buffer of 100 bytes exactly if the log directory
-- and the server's name have at most 90 bytes together; `sprintf` does not test it.
pub log_filepath-length :
    (path name weekday : List ℕ)
    → length weekday ≡ 3
    → (length (log_filepath path name weekday) + 1 ≤ 100) ↔ (length path + length name ≤ 90)
unfolding log_filepath
log_filepath-length path name weekday w =
    let e : length (log_filepath path name weekday)
        ≡ length path + (1 + (length name + (1 + (3 + 4)))) =
      ground (
        arith,
        w,
        length-append path (codes "/" ++ (name ++ (codes "-" ++ (weekday ++ codes ".log")))),
        length-append name (codes "-" ++ (weekday ++ codes ".log")),
        length-append weekday (codes ".log"),
      ) in
    (λ h. omega (arith, h, e), λ h. omega (arith, h, e))
