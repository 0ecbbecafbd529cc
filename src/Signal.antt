-- ===== src/Signal.antt =====
-- src/sigar_signal.c on a Unix system: the number of a signal from its name, and `kill`. The numbers are
-- a parameter, since `signal.h` gives them; a signal that it does not declare has none.
pub mod Numbers
mod Tests
