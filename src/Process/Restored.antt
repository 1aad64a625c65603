-- ===== src/Process/Restored.antt =====
-- The end of a process that has started (src/core.c): the terminal gets its settings back.
use ved.Common.{
  ℕ, ◌≡◌, refl, ◌<◌, true, Option, none, some, List, [], ◌∷◌, ◌++◌, map, arith, bit_or, ◌-◌, ◌==◌,
  ◌||◌, take, length, if_cases,
}
use ved.Common.Int.{pos}
use Prim.Native.String.{String}
use ved.Text.{codes}
use ved.Os.{Os}
use ved.Editor.{Editor}
use ved.Input.{process_keys}
use ved.Render.{editor_refresh_screen}
use ved.Loop.{get_window_size}
use ved.Process.{
  State, live, Outcome, done, waiting, ended, faulted, ◌>>=◌, Answers, called, leaving,
  disable_raw_mode, exit, die, handle_sigint, window_size, set_raw, enable_raw_mode,
}
use ved.Process.Settings.{
  Termios, Constants, raw, Call, put, complain, set_settings, set_flags, settings_in, flags_in,
}
use ved.Process.Main.{
  start, Event, keys, sigint, poll_interrupted, poll_failed, not_readable, would_block,
  end_of_input, read_failed, with_messages, refresh, event_loop, run, editor_destroy, started_run,
  main,
}

-- What a terminal answers whose settings are `t` and whose flags are `f`.
pub record Accepts (a : Answers) (t : Termios) (f : ℕ) : Type 0 where
  pub memory : a.calloc_ok ≡ true
  pub signal : a.signal_ok ≡ true
  pub rows : ℕ
  pub cols : ℕ
  pub has_row : 0 < rows
  pub has_col : 0 < cols
  pub window : a.window ≡ some (rows, cols)
  pub flags : a.get_flags ≡ some f
  pub settings : a.get_settings ≡ some t
  pub sets_flags : a.set_flags_ok ≡ true
  pub sets_settings : a.set_settings_ok ≡ true

-- The last calls, newest first, of a process that has left the screen and put `t` and `f` back.
abbrev pub restoring : Termios → ℕ → List Call
restoring t f = set_flags f ∷ set_settings t ∷ leaving

module _ (c : Constants) (t : Termios) (f : ℕ) where
  -- The terminal is raw, and the process can put it back.
  pub record IsRaw (s : State) : Type 0 where
    pub editor : s.editor ≡ live
    pub orig_termios : s.orig_termios ≡ t
    pub stdin_flags : s.stdin_flags ≡ pos f
    pub at_exit : s.at_exit ≡ true
    pub settings : settings_in s.calls ≡ some (raw c t)
    pub flags : flags_in s.calls ≡ some (bit_or f c.o_nonblock)

  -- Calls that begin with these, newest first.
  abbrev pub EndsWith : List Call → List Call → Type 0
  EndsWith last calls = (earlier : List Call) × (calls ≡ last ++ earlier)

  -- While it runs the terminal is raw; when it ends the terminal is as before; it does not fault.
  abbrev pub Keeps : {A : Type 0} → (A → Type 0) → Outcome A → Type 0
  Keeps P (done x) = P x
  Keeps P (waiting s ed) = IsRaw s
  Keeps P (ended status calls) = EndsWith (restoring t f) calls
  Keeps P (faulted calls) = ⊥

  bind-Keeps :
      {A B : Type 0} (P : A → Type 0) (Q : B → Type 0) (m : Outcome A) (k : A → Outcome B)
      → Keeps P m
      → ((x : A) → P x → Keeps Q (k x))
      → Keeps Q (m >>= k)
  bind-Keeps P Q (done x) k h next = next x h
  bind-Keeps P Q (waiting s ed) k h next = h
  bind-Keeps P Q (ended status calls) k h next = h
  bind-Keeps P Q (faulted calls) k h next = absurd h

  -- A call that writes.
  put-IsRaw : (s : State) (bytes : List ℕ) → IsRaw s → IsRaw (called s (put bytes))
  unfolding called
  put-IsRaw s bytes r = ground arith

  complain-IsRaw : (s : State) (bytes : List ℕ) → IsRaw s → IsRaw (called s (complain bytes))
  unfolding called
  complain-IsRaw s bytes r = ground arith

  abbrev Done : State → Type 0
  Done s = EndsWith (restoring t f) s.calls

  disable_raw_mode-Restored :
      (s : State)
      → IsRaw s
      → disable_raw_mode s ≡ done (record s { calls = restoring t f ++ s.calls })
  unfolding disable_raw_mode
  disable_raw_mode-Restored s r = ground arith

  module _ {A : Type 0} (P : A → Type 0) (s : State) (r : IsRaw s) where
    exit-Keeps : (status : ℕ) → Keeps P (exit s status)
    unfolding exit
    exit-Keeps status = rw (disable_raw_mode-Restored s r, r.at_exit) (s.calls, refl)

    handle_sigint-Keeps : Keeps P (handle_sigint s)
    unfolding handle_sigint
    handle_sigint-Keeps = rw (disable_raw_mode-Restored s r) (s.calls, refl)

  die-Keeps :
      {A : Type 0} (P : A → Type 0) (s : State) (message : String)
      → IsRaw s
      → Keeps P (die s message)
  unfolding die
  die-Keeps P s message r =
      exit-Keeps P (called s (complain (codes message))) (complain-IsRaw s (codes message) r) 1

  window_size-Keeps :
      (s : State) (size : Option (ℕ × ℕ)) → IsRaw s → Keeps (λ _. Unit {0}) (window_size s size)
  unfolding window_size
  window_size-Keeps s none r = die-Keeps (λ _. Unit {0}) s "ioctl(TIOCGWINSZ)" r
  window_size-Keeps s (some (rows, cols)) r =
      if_cases (Keeps (λ _. Unit {0})) (cols == 0 || rows == 0)
        (λ _. die-Keeps (λ _. Unit {0}) s "ioctl(TIOCGWINSZ)" r) (λ _. tt)

  puts-IsRaw :
      (messages : List (List ℕ)) (s : State)
      → IsRaw s
      → IsRaw (record s { calls = map put messages ++ s.calls })
  puts-IsRaw [] s r = ground arith
  puts-IsRaw (m ∷ messages) s r =
      let r' = puts-IsRaw messages s r in
      record {
        editor = r.editor;
        orig_termios = r.orig_termios;
        stdin_flags = r.stdin_flags;
        at_exit = r.at_exit;
        settings = r'.settings;
        flags = r'.flags;
      }

  -- `editor_destroy` frees the editor, so the handler that `exit` calls reads freed memory.
  destroy-exit :
      (s : State)
      → IsRaw s
      → (editor_destroy s >>= λ u. exit {A = Unit {0}} u 0)
        ≡ faulted (leaving ++ restoring t f ++ s.calls)
  unfolding editor_destroy exit disable_raw_mode
  destroy-exit s r = rw (disable_raw_mode-Restored s r, r.at_exit) refl

  -- What the loop hands on when it returns.
  abbrev HandsOn : State × Editor → Type 0
  HandsOn last = IsRaw last.0

  module _ (os : Os) where
    refresh-IsRaw : (s : State) (ed : Editor) → IsRaw s → IsRaw (refresh os s ed).0
    unfolding refresh
    refresh-IsRaw s ed r = put-IsRaw s (editor_refresh_screen os ed).1 r

    event_loop-Keeps :
        (events : List Event) (s : State) (ed : Editor)
        → IsRaw s
        → Keeps HandsOn (event_loop os s ed events)
    unfolding event_loop with_messages
    event_loop-Keeps [] s ed r = r
    event_loop-Keeps (sigint ∷ events) s ed r = handle_sigint-Keeps HandsOn s r
    event_loop-Keeps (poll_interrupted ∷ events) s ed r = event_loop-Keeps events s ed r
    event_loop-Keeps (poll_failed ∷ events) s ed r = die-Keeps HandsOn s "poll" r
    event_loop-Keeps (not_readable ∷ events) s ed r = event_loop-Keeps events s ed r
    event_loop-Keeps (would_block ∷ events) s ed r = event_loop-Keeps events s ed r
    event_loop-Keeps (end_of_input ∷ events) s ed r = event_loop-Keeps events s ed r
    event_loop-Keeps (read_failed ∷ events) s ed r = die-Keeps HandsOn s "read" r
    event_loop-Keeps (keys bytes window ∷ events) s ed r =
        let after = process_keys os ed bytes in
        let s' = with_messages s ed after in
        let n = length after.clipboard - length ed.clipboard in
        let r' : IsRaw s' = puts-IsRaw (take n after.clipboard) s r in
        if_cases (Keeps HandsOn) after.should_exit (λ _. r')
          (λ _.
            bind-Keeps (λ _. Unit {0}) HandsOn (window_size s' window) _
              (window_size-Keeps s' window r')
              (λ size _.
                let resized = get_window_size after size.0 size.1 in
                let next = refresh os s' resized in
                event_loop-Keeps events next.0 next.1 (refresh-IsRaw s' resized r')))

    start-IsRaw :
        (path : Option (List ℕ)) (a : Answers) → Accepts a t f → Keeps HandsOn (start os c path a)
    unfolding start window_size enable_raw_mode set_raw called
    start-IsRaw path a h = ground arith

    run-Keeps :
        (path : Option (List ℕ)) (a : Answers) (events : List Event)
        → Accepts a t f
        → Keeps HandsOn (started_run os c path a events)
    unfolding started_run run
    run-Keeps path a events h =
        bind-Keeps HandsOn HandsOn (start os c path a) _ (start-IsRaw path a h) (λ created r.
          let first = refresh os created.0 created.1 in
          event_loop-Keeps events first.0 first.1 (refresh-IsRaw created.0 created.1 r))

  -- While `main` waits the terminal is raw. When the process has ended the terminal is as it was;
  -- so it is at the fault, which comes after it and writes the leaving sequences once more.
  abbrev pub Leaves : Outcome Unit → Type 0
  Leaves (done x) = ⊥
  Leaves (waiting s ed) = IsRaw s
  Leaves (ended status calls) = EndsWith (restoring t f) calls
  Leaves (faulted calls) = EndsWith (leaving ++ restoring t f) calls

  finish-Leaves :
      (m : Outcome (State × Editor))
      → Keeps HandsOn m
      → Leaves (m >>= λ (last : State × Editor). editor_destroy last.0 >>= λ u. exit u 0)
  finish-Leaves (done (s, ed)) r = rw (destroy-exit s r) (s.calls, refl)
  finish-Leaves (waiting s ed) r = r
  finish-Leaves (ended status calls) r = r
  finish-Leaves (faulted calls) r = absurd r

-- On a terminal with settings `t` and flags `f` that accepts every call of the start, whatever is
-- typed, and whatever `poll`, `read`, `ioctl` and SIGINT do after it: while the program waits for
-- more, the terminal has the raw settings of `t` and the flags `f` with O_NONBLOCK; and when it ends,
-- by `die`, by the signal or by C-x C-c, its calls have last left the alternate screen and the
-- mouse's modes, set `t`, and set `f`. In the last case `editor_destroy` has done so, before the
-- handler of `atexit` reads freed memory and writes the leaving sequences again.
pub main-Leaves :
    (os : Os) (c : Constants) (t : Termios) (f : ℕ) (path : Option (List ℕ)) (a : Answers)
    (events : List Event)
    → Accepts a t f
    → Leaves c t f (main os c path a events)
unfolding main
main-Leaves os c t f path a events h =
    finish-Leaves c t f (started_run os c path a events) (run-Keeps c t f os path a events h)
