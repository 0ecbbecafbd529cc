-- ===== src/Signal/Numbers.antt =====
-- `sigar_signum_get` and `sigar_proc_kill`.
use libsigar.Base.{
  ℕ, Bool, false, List, [], ◌∷◌, Option, none, some, ◌≡◌, refl, sym, subst, ◌==◌, if◌then◌else◌,
  take, drop, ◌∙◌, ◌||◌, Option-cases, Bool-cases, inl, inr, ==_iff,
}
use libsigar.Text.{Bytes, codes, str_eq, str_eq→≡}
use libsigar.Sigar.FsType.{first_byte}

-- What a declared number returns, or what comes after.
abbrev pub or_else : Option ℕ → Option ℕ → Option ℕ
or_else (some signum) rest = some signum
or_else none rest = rest

-- `if (strEQ(name, "ABRT")) return SIGABRT;`, which is compiled if the signal is declared: `numbers`
-- gives the number for the name. `rest` is what the code does otherwise.
abbrev pub test_name : (Bytes → Option ℕ) → Bytes → Bytes → Option ℕ → Option ℕ
test_name numbers name text rest = if str_eq name text then or_else (numbers text) rest else rest

-- The switch over the first byte; -1 is no number.
unfoldable pub signum_switch : (Bytes → Option ℕ) → Bytes → Option ℕ
unfolding str_eq
signum_switch numbers name =
    let c = first_byte name in
    if c == b'A'
    then (test_name numbers name (codes "ABRT") (test_name numbers name (codes "ALRM") none))
    else if c == b'B'
    then (test_name numbers name (codes "BUS") none)
    else if c == b'C'
    then (test_name numbers name (codes "CONT")
        (test_name numbers name (codes "CHLD") (test_name numbers name (codes "CLD") none)))
    else if c == b'E'
    then (test_name numbers name (codes "EMT") none)
    else if c == b'F'
    then (test_name numbers name (codes "FPE") none)
    else if c == b'H'
    then (test_name numbers name (codes "HUP") none)
    else if c == b'I'
    then (test_name numbers name (codes "INT") (
        test_name numbers name (codes "ILL") (
          test_name numbers name (codes "IOT")
            (test_name numbers name (codes "IO") (test_name numbers name (codes "INFO") none)))))
    else if c == b'K'
    then (test_name numbers name (codes "KILL") none)
    else if c == b'P'
    then (test_name numbers name (codes "POLL") (
        test_name numbers name (codes "PIPE")
          (test_name numbers name (codes "PROF") (test_name numbers name (codes "PWR") none))))
    else if c == b'Q'
    then (test_name numbers name (codes "QUIT") none)
    else if c == b'S'
    then (test_name numbers name (codes "SEGV") (
        test_name numbers name (codes "SYS")
          (test_name numbers name (codes "STOP") (test_name numbers name (codes "STKFLT") none))))
    else if c == b'T'
    then (test_name numbers name (codes "TRAP") (
        test_name numbers name (codes "TERM") (
          test_name numbers name (codes "TSTP")
            (test_name numbers name (codes "TTIN") (test_name numbers name (codes "TTOU") none)))))
    else if c == b'U'
    then (test_name numbers name (codes "URG")
        (test_name numbers name (codes "USR1") (test_name numbers name (codes "USR2") none)))
    else if c == b'V'
    then (test_name numbers name (codes "VTALRM") none)
    else if c == b'W'
    then (test_name numbers name (codes "WINCH") none)
    else if c == b'X'
    then (test_name numbers name (codes "XCPU") (test_name numbers name (codes "XFSZ") none))
    else none

-- `name += 3`.
unfoldable pub strip_sig : Bytes → Bytes
strip_sig name = if str_eq (take 3 name) (codes "SIG") then drop 3 name else name

unfoldable pub signum_get : (Bytes → Option ℕ) → Bytes → Option ℕ
signum_get numbers name = signum_switch numbers (strip_sig name)

-- The status of `kill`, which is a parameter: `errno` on a failure, `SIGAR_OK` otherwise.
unfoldable pub proc_kill : (ℕ → ℕ → Option ℕ) → ℕ → ℕ → ℕ
proc_kill kill pid signum = elim (kill pid signum) [ none ↦ 0 | some errno ↦ errno ]

-- The names of the signals.
abbrev pub signal_names : List Bytes
signal_names =
    codes "ABRT"
    ∷ codes "ALRM"
    ∷ codes "BUS"
    ∷ codes "CONT"
    ∷ codes "CHLD"
    ∷ codes "CLD"
    ∷ codes "EMT"
    ∷ codes "FPE"
    ∷ codes "HUP"
    ∷ codes "INT"
    ∷ codes "ILL"
    ∷ codes "IOT"
    ∷ codes "IO"
    ∷ codes "INFO"
    ∷ codes "KILL"
    ∷ codes "POLL"
    ∷ codes "PIPE"
    ∷ codes "PROF"
    ∷ codes "PWR"
    ∷ codes "QUIT"
    ∷ codes "SEGV"
    ∷ codes "SYS"
    ∷ codes "STOP"
    ∷ codes "STKFLT"
    ∷ codes "TRAP"
    ∷ codes "TERM"
    ∷ codes "TSTP"
    ∷ codes "TTIN"
    ∷ codes "TTOU"
    ∷ codes "URG"
    ∷ codes "USR1"
    ∷ codes "USR2"
    ∷ codes "VTALRM"
    ∷ codes "WINCH"
    ∷ codes "XCPU"
    ∷ codes "XFSZ"
    ∷ []

-- The number of the first name of a list that fits and has one.
unfoldable pub find_signal : (Bytes → Option ℕ) → List Bytes → Bytes → Option ℕ
find_signal numbers [] name = none
find_signal numbers (text ∷ texts) name =
    test_name numbers name text (find_signal numbers texts name)

-- The same by membership in the list.
abbrev pub listed : List Bytes → Bytes → Bool
listed [] name = false
listed (text ∷ texts) name = str_eq name text || listed texts name

abbrev Equal : (Bytes → Option ℕ) → Bytes → ℕ → Type 0
Equal numbers s c = signum_switch numbers (c ∷ s) ≡ find_signal numbers signal_names (c ∷ s)

-- A first byte that the switch has a case for, or another.
at_byte :
    (c k : ℕ) (numbers : Bytes → Option ℕ) (s : Bytes)
    → Equal numbers s k
    → ((c == k) ≡ false → Equal numbers s c)
    → Equal numbers s c
at_byte c k numbers s here there = elim (Bool-cases (c == k)) [
  | inl same ↦ subst (Equal numbers s) (sym ((==_iff c k).0 same)) here
  | inr other ↦ there other
]

signum_switch-find_signal :
    (numbers : Bytes → Option ℕ) (name : Bytes)
    → signum_switch numbers name ≡ find_signal numbers signal_names name
unfolding signum_switch find_signal str_eq
signum_switch-find_signal numbers [] = refl
signum_switch-find_signal numbers (c ∷ s) = at_byte c b'A' numbers s refl (λ n_a.
    at_byte c b'B' numbers s refl (λ n_b. at_byte c b'C' numbers s refl (λ n_c.
      at_byte c b'E' numbers s refl (λ n_e. at_byte c b'F' numbers s refl (λ n_f.
        at_byte c b'H' numbers s refl (λ n_h. at_byte c b'I' numbers s refl (λ n_i.
          at_byte c b'K' numbers s refl (λ n_k. at_byte c b'P' numbers s refl (λ n_p.
            at_byte c b'Q' numbers s refl (λ n_q. at_byte c b'S' numbers s refl (λ n_s.
              at_byte c b'T' numbers s refl (λ n_t. at_byte c b'U' numbers s refl (λ n_u.
                at_byte c b'V' numbers s refl (λ n_v. at_byte c b'W' numbers s refl (λ n_w.
                  at_byte c b'X' numbers s refl (λ n_x.
                    rw
                      (
                        n_a, n_b, n_c, n_e, n_f, n_h, n_i, n_k, n_p, n_q, n_s, n_t, n_u, n_v, n_w,
                        n_x,
                      )
                      refl))))))))))))))))

find_signal-numbers :
    (numbers : Bytes → Option ℕ) (texts : List Bytes) (name : Bytes)
    → find_signal numbers texts name ≡ (if listed texts name then numbers name else none)
unfolding find_signal
find_signal-numbers numbers [] name = refl
find_signal-numbers numbers (text ∷ texts) name = elim (Bool-cases (str_eq name text)) [
  | inr other ↦ rw other (find_signal-numbers numbers texts name)
  | inl fits ↦ rw fits (
      rw (sym (str_eq→≡ name text fits)) (elim (Option-cases (numbers name)) [
        | inl undeclared ↦
            rw (undeclared, find_signal-numbers numbers texts name)
              (elim (Bool-cases (listed texts name)) [
                | inl in_list ↦ rw (in_list, undeclared) refl
                | inr not_in_list ↦ rw not_in_list refl
              ])
        | inr (signum, declared) ↦ rw declared refl
      ]))
]

-- A name, with SIG before it or without, has the number that the system declares for it if it is one
-- of the list of names, and none otherwise.
pub signum_get-listed :
    (numbers : Bytes → Option ℕ) (name : Bytes)
    → let text = strip_sig name in
      signum_get numbers name ≡ (if listed signal_names text then numbers text else none)
unfolding signum_get
signum_get-listed numbers name =
    signum_switch-find_signal numbers (strip_sig name)
    ∙ find_signal-numbers numbers signal_names (strip_sig name)
