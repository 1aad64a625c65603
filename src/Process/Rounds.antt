-- ===== src/Process/Rounds.antt =====
-- The loop over everything that `poll` and `read` may do (src/core.c) is the loop over the keys.
use mathlib.Core.Path.{subst}
use ved.Common.{
  ℕ, ◌≡◌, refl, ◌∙◌, Bool, true, false, Option, none, some, List, [], ◌∷◌, arith, ◌==◌, ◌||◌,
  if_cases, if◌then◌else◌,
}
use Prim.Native.String.{String}
use ved.Os.{Os}
use ved.Editor.{Editor, editor_create}
use ved.Input.{process_keys}
use ved.Render.{refreshed, editor_refresh_screen}
use ved.Render.Scroll.{editor_scroll}
use ved.Loop.{Input, get_window_size, editor_loop, editor_run}
use ved.Process.{
  State, Outcome, done, waiting, ended, faulted, ◌>>=◌, Answers, disable_raw_mode, exit, die,
  handle_sigint, window_size, set_raw, enable_raw_mode,
}
use ved.Process.Settings.{Constants}
use ved.Process.Main.{
  start, Event, keys, sigint, poll_interrupted, poll_failed, not_readable, would_block,
  end_of_input, read_failed, with_messages, refresh, event_loop, run, editor_destroy, started_run,
  main,
}

-- The keys among the events, with the windows after them.
abbrev pub inputs_of : List Event → List Input
inputs_of [] = []
inputs_of (keys bytes (some (rows, cols)) ∷ events) =
    record { keys = bytes; rows = rows; cols = cols } ∷ inputs_of events
inputs_of (keys bytes none ∷ events) = inputs_of events
inputs_of (sigint ∷ events) = inputs_of events
inputs_of (poll_interrupted ∷ events) = inputs_of events
inputs_of (poll_failed ∷ events) = inputs_of events
inputs_of (not_readable ∷ events) = inputs_of events
inputs_of (would_block ∷ events) = inputs_of events
inputs_of (end_of_input ∷ events) = inputs_of events
inputs_of (read_failed ∷ events) = inputs_of events

-- Where the process waits, it has this editor, which has not been told to exit.
abbrev pub WaitsWith : {A : Type 0} → Editor → Outcome A → Type 0
WaitsWith last (done x) = Unit
WaitsWith last (waiting s ed) = (last ≡ ed) × (ed.should_exit ≡ false)
WaitsWith last (ended status calls) = Unit
WaitsWith last (faulted calls) = Unit

die-WaitsWith :
    (last : Editor) (s : State) (message : String)
    → WaitsWith last (die {A = State × Editor} s message)
unfolding die exit disable_raw_mode
die-WaitsWith last s message = ground arith

no_window-WaitsWith :
    (last : Editor) (s : State) (message : String) (next : ℕ × ℕ → Outcome (State × Editor))
    → WaitsWith last (die s message >>= next)
unfolding die exit disable_raw_mode
no_window-WaitsWith last s message next = ground arith

window_size-WaitsWith :
    (last : Editor) (s : State) (rows cols : ℕ) (next : ℕ × ℕ → Outcome (State × Editor))
    → WaitsWith last (next (rows, cols))
    → WaitsWith last (window_size s (some (rows, cols)) >>= next)
unfolding window_size
window_size-WaitsWith last s rows cols next h =
    if_cases (λ (m : Outcome (ℕ × ℕ)). WaitsWith last (m >>= next)) (cols == 0 || rows == 0)
      (λ _. no_window-WaitsWith last s "ioctl(TIOCGWINSZ)" next) (λ _. h)

-- Both loops test whether to exit.
both-WaitsWith :
    (exits : Bool) (last more : Editor × List (List ℕ)) (m n : Outcome (State × Editor))
    → (exits ≡ true → WaitsWith last.0 m)
    → (exits ≡ false → WaitsWith more.0 n)
    → WaitsWith (if exits then last else more).0 (if exits then m else n)
both-WaitsWith true last more m n yes_exits goes_on = yes_exits refl
both-WaitsWith false last more m n yes_exits goes_on = goes_on refl

handle_sigint-WaitsWith :
    (last : Editor) (s : State) → WaitsWith last (handle_sigint {A = State × Editor} s)
unfolding handle_sigint disable_raw_mode
handle_sigint-WaitsWith last s = ground arith

module _ (os : Os) where
  should_exit-refresh : (s : State) (ed : Editor) → (refresh os s ed).1.should_exit ≡ ed.should_exit
  unfolding refresh editor_refresh_screen refreshed editor_scroll
  should_exit-refresh s ed = refl

  event_loop-editor :
      (events : List Event) (s : State) (ed : Editor)
      → ed.should_exit ≡ false
      → WaitsWith (editor_loop os ed (inputs_of events)).0 (event_loop os s ed events)
  unfolding event_loop editor_loop editor_refresh_screen refresh window_size
  event_loop-editor [] s ed h = (refl, h)
  event_loop-editor (sigint ∷ events) s ed h = handle_sigint-WaitsWith _ s
  event_loop-editor (poll_interrupted ∷ events) s ed h = event_loop-editor events s ed h
  event_loop-editor (poll_failed ∷ events) s ed h = die-WaitsWith _ s "poll"
  event_loop-editor (not_readable ∷ events) s ed h = event_loop-editor events s ed h
  event_loop-editor (would_block ∷ events) s ed h = event_loop-editor events s ed h
  event_loop-editor (end_of_input ∷ events) s ed h = event_loop-editor events s ed h
  event_loop-editor (read_failed ∷ events) s ed h = die-WaitsWith _ s "read"
  event_loop-editor (keys bytes none ∷ events) s ed h =
      if_cases (WaitsWith _) (process_keys os ed bytes).should_exit (λ _. tt)
        (λ _.
          no_window-WaitsWith _ (with_messages s ed (process_keys os ed bytes)) "ioctl(TIOCGWINSZ)"
            _)
  event_loop-editor (keys bytes (some (rows, cols)) ∷ events) s ed h =
      let after = process_keys os ed bytes in
      let s' = with_messages s ed after in
      let next = refresh os s' (get_window_size after rows cols) in
      both-WaitsWith after.should_exit _ _ _ _ (λ _. tt)
        (λ e.
          window_size-WaitsWith _ s' rows cols
            (λ size.
              let r = refresh os s' (get_window_size after size.0 size.1) in
              event_loop os r.0 r.1 events)
            (event_loop-editor events next.0 next.1
              (should_exit-refresh s' (get_window_size after rows cols) ∙ e)))

-- The window that `ioctl` has reported.
abbrev pub reported : Option (ℕ × ℕ) → ℕ × ℕ
reported none = (0, 0)
reported (some size) = size

-- The editor that a start makes, which does not wait.
abbrev Creates : Editor → Outcome (State × Editor) → Type 0
Creates made (done (s, ed)) = made ≡ ed
Creates made (waiting s ed) = ⊥
Creates made (ended status calls) = Unit
Creates made (faulted calls) = Unit

module _ (os : Os) (c : Constants) (path : Option (List ℕ)) (a : Answers) where
  abbrev made : Editor
  made = editor_create os path (reported a.window).0 (reported a.window).1

  start-Creates : Creates made (start os c path a)
  unfolding start window_size enable_raw_mode set_raw die exit disable_raw_mode
  start-Creates = ground arith

  run-WaitsWith :
      (events : List Event) (m : Outcome (State × Editor))
      → Creates made m
      → WaitsWith
          (editor_run os made (inputs_of events)).0
          (m >>= λ (created : State × Editor). run os created.0 created.1 events)
  unfolding run editor_run refresh editor_create
  run-WaitsWith events (done (s, ed)) e =
      let first = refresh os s made in
      subst (λ ed'. WaitsWith (editor_run os made (inputs_of events)).0 (run os s ed' events)) e
        (event_loop-editor os events first.0 first.1 (should_exit-refresh os s made))
  run-WaitsWith events (waiting s ed) e = absurd e
  run-WaitsWith events (ended status calls) e = tt
  run-WaitsWith events (faulted calls) e = tt

  finish-WaitsWith :
      (last : Editor) (m : Outcome (State × Editor))
      → WaitsWith last m
      → WaitsWith last
          (m >>= λ (x : State × Editor). editor_destroy x.0 >>= λ u. exit {A = Unit {0}} u 0)
  unfolding editor_destroy exit disable_raw_mode
  finish-WaitsWith last (done (s, ed)) h = ground arith
  finish-WaitsWith last (waiting s ed) h = h
  finish-WaitsWith last (ended status calls) h = h
  finish-WaitsWith last (faulted calls) h = h

  pub main-WaitsWith :
      (events : List Event)
      → WaitsWith (editor_run os made (inputs_of events)).0 (main os c path a events)
  unfolding main started_run
  main-WaitsWith events =
      finish-WaitsWith _ _ (run-WaitsWith events (start os c path a) start-Creates)
