-- ===== src/Signal/Tests.antt =====
-- The theorem on the names of signals at concrete numbers.
use libsigar.Base.{ℕ, some, none, Option, ◌≡◌, refl, if◌then◌else◌}
use libsigar.Text.{Bytes, codes, str_eq}
use libsigar.Signal.Numbers.{
  strip_sig, signal_names, listed, signum_get, signum_switch, proc_kill, signum_get-listed,
}

-- A system with three signals.
abbrev three : Bytes → Option ℕ
three name =
    if str_eq name (codes "HUP")
    then some 1
    else if str_eq name (codes "KILL")
    then some 9
    else if str_eq name (codes "TERM")
    then some 15
    else none

signum_get-listed_example :
    let text = strip_sig (codes "SIGTERM") in
    signum_get three (codes "SIGTERM") ≡ (if listed signal_names text then three text else none)
signum_get-listed_example = signum_get-listed three (codes "SIGTERM")

signum_get_test : signum_get three (codes "SIGTERM") ≡ some 15
unfolding signum_get signum_switch strip_sig str_eq
signum_get_test = refl

undeclared_test : signum_get three (codes "USR1") ≡ none
unfolding signum_get signum_switch strip_sig str_eq
undeclared_test = refl

proc_kill_test : proc_kill (λ pid signum. some 3) 7 9 ≡ 3
unfolding proc_kill
proc_kill_test = refl
