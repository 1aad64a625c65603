-- ===== src/Process/Ends.antt =====
-- The ends of the process that go wrong (src/core.c): a start that fails, and a normal end.
use ved.Common.{
  ℕ, ◌≡◌, ◌≢◌, ◌⊎◌, refl, true, false, Option, none, some, List, [], ◌∷◌, ◌++◌, arith, ◌==◌, ◌||◌,
  if_cases,
}
use Prim.Native.String.{String}
use ved.Os.{Os}
use ved.Editor.{Editor}
use ved.Input.{process_keys}
use ved.Loop.{get_window_size}
use ved.Process.{
  State, live, Outcome, done, waiting, ended, faulted, ◌>>=◌, Answers, called, leaving,
  restore_flags, disable_raw_mode, exit, die, handle_sigint, window_size, set_raw, enable_raw_mode,
}
use ved.Process.Settings.{Constants, zeroed, Call, set_settings, settings_in}
use ved.Process.Main.{
  start, Event, keys, sigint, poll_interrupted, poll_failed, not_readable, would_block,
  end_of_input, read_failed, with_messages, refresh, event_loop, run, editor_destroy, started_run,
  main,
}

-- `ioctl` fails, or reports a window without rows or columns.
abbrev pub NoWindow : Option (ℕ × ℕ) → Type 0
NoWindow none = Unit
NoWindow (some (rows, cols)) = (cols ≡ 0) ⊎ (rows ≡ 0)

-- A call of `editor_create` fails before `tcgetattr` has read the terminal's settings.
abbrev pub FailsEarly : Answers → Type 0
FailsEarly a =
    NoWindow a.window ⊎ (a.get_flags ≡ none) ⊎ (a.set_flags_ok ≡ false) ⊎ (a.get_settings ≡ none)

-- The process has ended with status 1 and has given the terminal settings that are all zero.
abbrev pub Zeroes : {A : Type 0} → Outcome A → Type 0
Zeroes (done x) = ⊥
Zeroes (waiting s ed) = ⊥
Zeroes (ended status calls) = (status ≡ 1) × (settings_in calls ≡ some zeroed)
Zeroes (faulted calls) = ⊥

-- When the process starts, and `ioctl` or one of the calls up to `tcgetattr` fails, it ends with
-- status 1; but `atexit` has been called already, and so the handler gives the terminal the
-- settings that `calloc` left in the editor, all zero, in place of its own.
pub main-Zeroes :
    (os : Os) (c : Constants) (path : Option (List ℕ)) (a : Answers) (events : List Event)
    → a.calloc_ok ≡ true
    → a.signal_ok ≡ true
    → FailsEarly a
    → Zeroes (main os c path a events)
unfolding main started_run start window_size enable_raw_mode set_raw die exit disable_raw_mode
    restore_flags called
main-Zeroes os c path a events h k fails = ground arith

-- Its editor is in memory, and its handler in place.
abbrev IsUp : State → Type 0
IsUp s = (s.editor ≡ live) × (s.at_exit ≡ true)

-- A part that returns leaves the process so; one that ends it gives a status other than 0.
abbrev NonZero : {A : Type 0} → (A → State) → Outcome A → Type 0
NonZero f (done x) = IsUp (f x)
NonZero f (waiting s ed) = Unit
NonZero f (ended status calls) = status ≢ 0
NonZero f (faulted calls) = ⊥

abbrev of_pair : State × Editor → State
of_pair x = x.0

bind-NonZero :
    {A B : Type 0} (f : A → State) (g : B → State) (m : Outcome A) (k : A → Outcome B)
    → NonZero f m
    → ((x : A) → IsUp (f x) → NonZero g (k x))
    → NonZero g (m >>= k)
bind-NonZero f g (done x) k h next = next x h
bind-NonZero f g (waiting s ed) k h next = tt
bind-NonZero f g (ended status calls) k h next = h
bind-NonZero f g (faulted calls) k h next = absurd h

module _ (os : Os) (c : Constants) where
  start-NonZero : (path : Option (List ℕ)) (a : Answers) → NonZero of_pair (start os c path a)
  unfolding start window_size enable_raw_mode set_raw die exit disable_raw_mode restore_flags called
  start-NonZero path a = ground arith

die-NonZero :
    {A : Type 0} (f : A → State) (s : State) (message : String) → IsUp s → NonZero f (die s message)
unfolding die exit disable_raw_mode restore_flags called
die-NonZero f s message up = ground arith

handle_sigint-NonZero :
    {A : Type 0} (f : A → State) (s : State) → IsUp s → NonZero f (handle_sigint s)
unfolding handle_sigint disable_raw_mode restore_flags
handle_sigint-NonZero f s up = ground arith

window_size-NonZero :
    (s : State) (size : Option (ℕ × ℕ)) → IsUp s → NonZero (λ _. s) (window_size s size)
unfolding window_size
window_size-NonZero s none up = die-NonZero (λ _. s) s "ioctl(TIOCGWINSZ)" up
window_size-NonZero s (some (rows, cols)) up =
    if_cases (NonZero (λ _. s)) (cols == 0 || rows == 0)
      (λ _. die-NonZero (λ _. s) s "ioctl(TIOCGWINSZ)" up) (λ _. up)

module _ (os : Os) where
  event_loop-NonZero :
      (events : List Event) (s : State) (ed : Editor)
      → IsUp s
      → NonZero of_pair (event_loop os s ed events)
  unfolding event_loop with_messages refresh called
  event_loop-NonZero [] s ed up = tt
  event_loop-NonZero (sigint ∷ events) s ed up = handle_sigint-NonZero of_pair s up
  event_loop-NonZero (poll_interrupted ∷ events) s ed up = event_loop-NonZero events s ed up
  event_loop-NonZero (poll_failed ∷ events) s ed up = die-NonZero of_pair s "poll" up
  event_loop-NonZero (not_readable ∷ events) s ed up = event_loop-NonZero events s ed up
  event_loop-NonZero (would_block ∷ events) s ed up = event_loop-NonZero events s ed up
  event_loop-NonZero (end_of_input ∷ events) s ed up = event_loop-NonZero events s ed up
  event_loop-NonZero (read_failed ∷ events) s ed up = die-NonZero of_pair s "read" up
  event_loop-NonZero (keys bytes window ∷ events) s ed up =
      let after = process_keys os ed bytes in
      let s' = with_messages s ed after in
      if_cases (NonZero of_pair) after.should_exit (λ _. up)
        (λ _.
          bind-NonZero (λ _. s') of_pair (window_size s' window) _
            (window_size-NonZero s' window up)
            (λ size up'.
              let next = refresh os s' (get_window_size after size.0 size.1) in
              event_loop-NonZero events next.0 next.1 up'))

  started_run-NonZero :
      (c : Constants) (path : Option (List ℕ)) (a : Answers) (events : List Event)
      → NonZero of_pair (started_run os c path a events)
  unfolding started_run run refresh called
  started_run-NonZero c path a events =
      bind-NonZero of_pair of_pair (start os c path a) _ (start-NonZero os c path a) (λ created up.
        let first = refresh os created.0 created.1 in event_loop-NonZero events first.0 first.1 up)

-- The loop has returned: `editor_destroy` frees the editor, and the handler reads it.
finish-faults :
    (s : State)
    → IsUp s
    → (calls : List Call) × ((editor_destroy s >>= λ u. exit {A = Unit {0}} u 0) ≡ faulted calls)
unfolding editor_destroy exit disable_raw_mode
finish-faults s up = (
  leaving ++ restore_flags s.stdin_flags (set_settings s.orig_termios ∷ leaving ++ s.calls),
  ground arith,
)

-- What `main` comes to, when its loop has come to `ran`: it faults after the loop has returned, and
-- ends with no status of 0 otherwise.
abbrev pub NeverZero : Outcome (State × Editor) → Outcome Unit → Type 0
NeverZero (done last) m = (calls : List Call) × (m ≡ faulted calls)
NeverZero (waiting s ed) m = m ≡ waiting s ed
NeverZero (ended status calls) m = (m ≡ ended status calls) × (status ≢ 0)
NeverZero (faulted calls) m = ⊥

finish-NeverZero :
    (m : Outcome (State × Editor))
    → NonZero of_pair m
    → NeverZero m
        (m >>= λ (last : State × Editor). editor_destroy last.0 >>= λ u. exit {A = Unit {0}} u 0)
finish-NeverZero (done last) up = finish-faults last.0 up
finish-NeverZero (waiting s ed) h = refl
finish-NeverZero (ended status l) h = (refl, h)
finish-NeverZero (faulted l) h = absurd h

-- Whatever the system answers and whatever happens, `main` never ends the process with status 0. When
-- the loop returns, after C-x C-c, `editor_destroy` frees the editor and leaves `g_editor` pointing
-- at it, and the handler that `exit` calls, `disable_raw_mode`, reads the freed memory. When the start
-- or the loop ends the process itself, the status is not 0; when the loop waits, `main` waits; and
-- neither the start nor the loop reads freed memory.
pub main-NeverZero :
    (os : Os) (c : Constants) (path : Option (List ℕ)) (a : Answers) (events : List Event)
    → NeverZero (started_run os c path a events) (main os c path a events)
unfolding main
main-NeverZero os c path a events =
    finish-NeverZero (started_run os c path a events) (started_run-NonZero os c path a events)
