-- ===== src/FileInfo/Walk.antt =====
-- The walk of a directory ends, without a fault, and counts the files that are found.
use libsigar.Base.{
  ℕ, zero, suc, ◌+◌, ◌-◌, ◌<◌, ◌≤◌, Bool, true, false, List, [], ◌∷◌, ◌++◌, ◌≡◌, refl, sym, ◌∙◌, ap,
  arith, leb, length, take, length-append, Bool-cases, inl, inr,
}
use libsigar.Text.{Bytes}
use libsigar.Outcome.{Answer-cases, answer, failed, Outcome, done, ◌>>=◌}
use libsigar.FileInfo.Attrs.{StatInfo}
use libsigar.FileInfo.Dirs.{
  path_max, DirStat, zero_stat, DirCalls, is_dotdir, account, set_total, entry_path, enter,
  read_entries, dir_stat_from, dir_stat_get, dir_usage_get,
}
use libsigar.FileInfo.Found.{
  is_entered, Found, no_more, a_dot, gone, a_file, a_closed_dir, a_dir, of_type, sizes, Counts,
  counts, after, IsWords, after-append, IsWords-after, account-after,
}

-- No path that fills the buffer is opened.
abbrev pub IsLimited : DirCalls → Type 0
IsLimited calls =
    (dir : Bytes) → path_max ≤ length dir → (errno : ℕ) × (calls.opendir dir ≡ failed errno)

-- What the walk of a directory leaves: the status of `opendir`, or the counts of all that is found.
pub data Reported (calls : DirCalls) (recurse : Bool) (dir : Bytes) (st : DirStat)
    : Outcome (ℕ × DirStat) → Type 0 where
  not_opened :
      {errno : ℕ}
      → calls.opendir dir ≡ failed errno
      → Reported calls recurse dir st (done (errno, st))
  counted :
      {entries : List Bytes} {l : List StatInfo} (st' : DirStat)
      → calls.opendir dir ≡ answer entries
      → Found calls recurse dir entries l
      → counts st' ≡ after (counts st) l
      → Reported calls recurse dir st (done (0, set_total st'))

module _ (calls : DirCalls) (recurse : Bool) where
  -- What the rest of a directory leaves.
  abbrev Rest : Bytes → List Bytes → DirStat → Outcome DirStat → Type 0
  Rest dir entries st r =
      (l : List StatInfo) × (st' : DirStat) × Found calls recurse dir entries l
      × (r ≡ done st')
      × (counts st' ≡ after (counts st) l)

  abbrev Walks : (Bytes → DirStat → Outcome (ℕ × DirStat)) → Bytes → Type 0
  Walks sub dir =
      (path : Bytes) (st : DirStat)
      → length dir < length path
      → IsWords (counts st)
      → Reported calls recurse path st (sub path st)

  IsWords-counts : (c d : Counts) (l : List StatInfo) → d ≡ after c l → IsWords d
  IsWords-counts c d l e = rw e (IsWords-after c l)

  longer : (dir entry : Bytes) → length dir < length (entry_path dir entry)
  longer dir entry =
      omega (arith, length-append dir (b'/' ∷ take (path_max - length dir - 1) entry))

  -- A file behind whose entry `l` has been found.
  abbrev Step : Bytes → Bytes → StatInfo → DirStat → Outcome DirStat → Type 0
  Step dir entry info st r =
      (below : List StatInfo) × (st' : DirStat) × (r ≡ done st')
      × (counts st' ≡ after (counts st) (info ∷ below))
      × ((entries : List Bytes)
          → (l : List StatInfo) → Found calls recurse dir entries l
          → Found calls recurse dir (entry ∷ entries) (info ∷ below ++ l))

  sub-Step :
      (dir entry : Bytes) (info : StatInfo) (st : DirStat) (r : Outcome (ℕ × DirStat))
      → is_dotdir entry ≡ false
      → calls.lstat (entry_path dir entry) ≡ answer info
      → is_entered recurse info ≡ true
      → IsWords (counts st)
      → Reported calls recurse (entry_path dir entry) (account info st) r
      → Step dir entry info st (r >>= λ a. done a.1)
  unfolding set_total
  sub-Step dir entry info st _ d e i h (not_opened o) =
      ([], account info st, refl, account-after info st h, λ entries l f. a_closed_dir d e i o f)
  sub-Step dir entry info st _ d e i h (counted {l = k} st' o f c) = (
    k,
    set_total st',
    refl,
    c ∙ ap (λ x. after x k) (account-after info st h) ∙ after-append (counts st) (info ∷ []) k,
    λ entries l g. a_dir d e i o f g,
  )

  enter-Step :
      (sub : Bytes → DirStat → Outcome (ℕ × DirStat)) (dir entry : Bytes) (info : StatInfo)
      (st : DirStat)
      → Walks sub dir
      → is_dotdir entry ≡ false
      → calls.lstat (entry_path dir entry) ≡ answer info
      → IsWords (counts st)
      → Step dir entry info st
          (enter calls recurse sub (entry_path dir entry) info (account info st))
  enter-Step sub dir entry info st walks d e h = elim (Bool-cases (is_entered recurse info)) [
    | inl i ↦
        let w =
          IsWords-counts (counts st) (counts (account info st)) (info ∷ [])
            (account-after info st h) in
        rw i (
          sub-Step dir entry info st (sub (entry_path dir entry) (account info st)) d e i h
            (walks (entry_path dir entry) (account info st) (longer dir entry) w))
    | inr i ↦
        rw i ([], account info st, refl, account-after info st h, λ entries l f. a_file d e i f)
  ]

  known-Rest :
      (sub : Bytes → DirStat → Outcome (ℕ × DirStat)) (dir : Bytes)
      → Walks sub dir
      → (entry : Bytes) (entries : List Bytes) (info : StatInfo) (st : DirStat)
        (r : Outcome DirStat)
      → IsWords (counts st)
      → Step dir entry info st r
      → ((st' : DirStat)
          → IsWords (counts st')
          → Rest dir entries st' (read_entries calls recurse sub dir entries st'))
      → Rest dir (entry ∷ entries) st (r >>= read_entries calls recurse sub dir entries)
  known-Rest sub dir walks entry entries info st r h (below, st', e, c, make) rest =
      let (l, st'', f, e', c') =
        rest st' (IsWords-counts (counts st) (counts st') (info ∷ below) c) in
      (
        info ∷ below ++ l,
        st'',
        make entries l f,
        rw e e',
        c' ∙ ap (λ x. after x l) c ∙ after-append (counts st) (info ∷ below) l,
      )

  read_entries-Rest :
      (sub : Bytes → DirStat → Outcome (ℕ × DirStat)) (dir : Bytes)
      → Walks sub dir
      → (entries : List Bytes) (st : DirStat) → IsWords (counts st)
      → Rest dir entries st (read_entries calls recurse sub dir entries st)
  unfolding read_entries
  read_entries-Rest sub dir walks [] st h = ([], st, no_more, refl, sym h)
  read_entries-Rest sub dir walks (entry ∷ entries) st h =
      let (l, st', f, e, c) = read_entries-Rest sub dir walks entries st h in
      elim (Bool-cases (is_dotdir entry)) [
        | inl d ↦ rw d (l, st', a_dot d f, e, c)
        | inr d ↦ elim (Answer-cases (calls.lstat (entry_path dir entry))) [
          | inl (info, known) ↦
              rw (d, known)
                (known-Rest sub dir walks entry entries info st _ h
                  (enter-Step sub dir entry info st walks d known h)
                  (read_entries-Rest sub dir walks entries))
          | inr (errno, unknown) ↦ rw (d, unknown) (l, st', gone d unknown f, e, c)
        ]
      ]

  closed-Reported :
      (n : ℕ) (dir : Bytes) (st : DirStat) (errno : ℕ)
      → calls.opendir dir ≡ failed errno
      → Reported calls recurse dir st (dir_stat_from calls recurse (suc n) dir st)
  unfolding dir_stat_from
  closed-Reported n dir st errno e = rw (dir_stat_from, e) (not_opened e)

  opened-Reported :
      (n : ℕ) (dir : Bytes) (st : DirStat) (entries : List Bytes)
      → calls.opendir dir ≡ answer entries
      → leb path_max (length dir) ≡ false
      → Rest dir entries st
          (read_entries calls recurse (dir_stat_from calls recurse n) dir entries st)
      → Reported calls recurse dir st (dir_stat_from calls recurse (suc n) dir st)
  unfolding dir_stat_from
  opened-Reported n dir st entries o short (l, st', f, e, c) =
      rw (dir_stat_from, o, short, e) (counted st' o f c)

  dir_stat_from-Reported :
      (n : ℕ) (dir : Bytes) (st : DirStat)
      → IsLimited calls
      → path_max ≤ n + length dir
      → IsWords (counts st)
      → Reported calls recurse dir st (dir_stat_from calls recurse (suc n) dir st)
  dir_stat_from-Reported zero dir st limited fuel h =
      let (errno, e) = limited dir (omega arith) in closed-Reported zero dir st errno e
  dir_stat_from-Reported (suc n) dir st limited fuel h =
      elim (Bool-cases (leb path_max (length dir))) [
        | inl long ↦
            let (errno, e) = limited dir (ground arith) in closed-Reported (suc n) dir st errno e
        | inr short ↦ elim (Answer-cases (calls.opendir dir)) [
          | inr (errno, e) ↦ closed-Reported (suc n) dir st errno e
          | inl (entries, e) ↦ opened-Reported (suc n) dir st entries e short (
              read_entries-Rest (dir_stat_from calls recurse (suc n)) dir
                (λ path st' l w. dir_stat_from-Reported n path st' limited (omega arith) w) entries
                st h)
        ]
      ]

-- Where no path that fills the buffer can be opened, the usage of a directory is found without an
-- overflow of that buffer, and the walk ends: the status is that of opening it, or the counters are
-- those of all files below it, each once, the sizes added up, as 64-bit words.
pub dir_usage_get-Reported :
    (calls : DirCalls) (dir : Bytes)
    → IsLimited calls
    → Reported calls true dir zero_stat (dir_usage_get calls dir)
unfolding dir_usage_get of_type sizes
dir_usage_get-Reported calls dir limited =
    dir_stat_from-Reported calls true path_max dir zero_stat limited (omega arith) refl

-- The statistics of a directory are those of its own entries in the same way.
pub dir_stat_get-Reported :
    (calls : DirCalls) (dir : Bytes)
    → IsLimited calls
    → Reported calls false dir zero_stat (dir_stat_get calls dir)
unfolding dir_stat_get of_type sizes
dir_stat_get-Reported calls dir limited =
    dir_stat_from-Reported calls false path_max dir zero_stat limited (omega arith) refl
