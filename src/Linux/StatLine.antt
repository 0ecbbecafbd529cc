-- ===== src/Linux/StatLine.antt =====
-- `proc_stat_read` on a line of /proc/pid/stat: each number comes from its field, and the name may hold
-- spaces and parentheses.
use libsigar.Base.{ℕ, ◌+◌, ◌*◌, ◌/◌, ◌%◌, List, [], ◌∷◌, ◌++◌, take, u32_mod, u64_mod}
use libsigar.Text.{Bytes}
use libsigar.Linux.Read.{IsWord, Numeral, Signed, signed_text, signed_value, words}
use libsigar.Linux.Stat.{System, ProcStat, pageshift}

-- A line of /proc/pid/stat: its numbers, and the words of the fields that are skipped. The kernel prints
-- some numbers as signed ones; of them the terminal, the priority, the nice value and the processor may
-- have a minus sign here, and what is read is the bit pattern of an `int`. The others are digits.
pub record Line : Type 0 where
  pub pid_text : Bytes
  pub name : Bytes
  pub state : ℕ
  pub ppid : Numeral
  pub tty : Signed
  pub minor_faults : Numeral
  pub major_faults : Numeral
  pub utime : Numeral
  pub stime : Numeral
  pub priority : Signed
  pub nice : Signed
  pub start_time : Numeral
  pub vsize : Numeral
  pub rss : Numeral
  pub processor : Signed
  pub skipped : ℕ → Bytes
  pub words_lem : (i : ℕ) → IsWord (skipped i)

abbrev pub fields : Line → List Bytes
fields l =
    l.ppid.text
    ∷ l.skipped 5
    ∷ l.skipped 6
    ∷ signed_text l.tty
    ∷ l.skipped 8
    ∷ l.skipped 9
    ∷ l.minor_faults.text
    ∷ l.skipped 11
    ∷ l.major_faults.text
    ∷ l.skipped 13
    ∷ l.utime.text
    ∷ l.stime.text
    ∷ l.skipped 16
    ∷ l.skipped 17
    ∷ signed_text l.priority
    ∷ signed_text l.nice
    ∷ l.skipped 20
    ∷ l.skipped 21
    ∷ l.start_time.text
    ∷ l.vsize.text
    ∷ l.rss.text
    ∷ l.skipped 25
    ∷ l.skipped 26
    ∷ l.skipped 27
    ∷ l.skipped 28
    ∷ l.skipped 29
    ∷ l.skipped 30
    ∷ l.skipped 31
    ∷ l.skipped 32
    ∷ l.skipped 33
    ∷ l.skipped 34
    ∷ l.skipped 35
    ∷ l.skipped 36
    ∷ l.skipped 37
    ∷ l.skipped 38
    ∷ signed_text l.processor
    ∷ []

-- What is read of it.
abbrev pub stat_of : System → Line → ProcStat → ProcStat
stat_of sys l pstat = record pstat {
  name = take 127 l.name;
  state = l.state;
  ppid = l.ppid.value;
  tty = signed_value l.tty % u32_mod;
  minor_faults = l.minor_faults.value;
  major_faults = l.major_faults.value;
  utime = sys.tick2msec l.utime.value;
  stime = sys.tick2msec l.stime.value;
  priority = signed_value l.priority % u32_mod;
  nice = signed_value l.nice % u32_mod;
  start_time = (l.start_time.value / sys.ticks + sys.boot_time) * 1000 % u64_mod;
  vsize = l.vsize.value;
  rss = pageshift sys l.rss.value;
  processor = signed_value l.processor % u32_mod;
}

-- `123 (name) S 1 ...`.
unfoldable pub print_line : Line → Bytes
print_line l = l.pid_text ++ b'(' ∷ (l.name ++ b')' ∷ b' ' ∷ l.state ∷ words (fields l))
