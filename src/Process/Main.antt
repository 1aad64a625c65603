-- ===== src/Process/Main.antt =====
-- `main` of src/main.c, with the start, the loop and the end of src/core.c.
use ved.Common.{ℕ, false, true, Option, List, [], ◌∷◌, ◌++◌, ◌-◌, map, length, take, if◌then◌else◌}
use ved.Common.Int.{pos}
use ved.Os.{Os}
use ved.Editor.{Editor, editor_create}
use ved.Input.{process_keys}
use ved.Render.{editor_refresh_screen}
use ved.Loop.{get_window_size}
use ved.Process.{
  State, null, live, dangling, Outcome, done, waiting, ◌>>=◌, Answers, called, disable_raw_mode,
  exit, die, handle_sigint, window_size, enable_raw_mode,
}
use ved.Process.Settings.{Constants, zeroed, put}

-- What `calloc` gives, before the first call to the terminal.
abbrev pub fresh : State
fresh = record {
  editor = null;
  orig_termios = zeroed;
  stdin_flags = pos 0;
  at_exit = false;
  calls = [];
}

-- `editor_create`: the editor, and what it does to the process.
unfoldable pub start : Os → Constants → Option (List ℕ) → Answers → Outcome (State × Editor)
unfolding die window_size enable_raw_mode
start os c path a =
    if a.calloc_ok
    then (let s = record fresh { editor = live } in
        if a.signal_ok
        then (let s' = record s { at_exit = true } in
            window_size s' a.window >>= λ (size : ℕ × ℕ).
            enable_raw_mode c a s' >>= λ t. done (t, editor_create os path size.0 size.1))
        else die s "signal")
    else die fresh "calloc"

-- What one round of the loop meets: a signal, the results of `poll` and `read`, and after a `read`
-- of bytes what `ioctl` says of the window.
pub data Event : Type 0 where
  sigint poll_interrupted poll_failed not_readable would_block end_of_input read_failed : Event
  keys : List ℕ → Option (ℕ × ℕ) → Event

-- The messages for the clipboard that the keys have written, both lists newest first.
unfoldable pub with_messages : State → Editor → Editor → State
with_messages s ed after =
    let n = length after.clipboard - length ed.clipboard in
    record s { calls = map put (take n after.clipboard) ++ s.calls }

unfoldable pub refresh : Os → State → Editor → State × Editor
unfolding editor_refresh_screen called
refresh os s ed =
    let (shown, screen) = editor_refresh_screen os ed in (called s (put screen), shown)

-- `editor_loop` over these events. It waits where they are at their end.
unfoldable pub event_loop : Os → State → Editor → List Event → Outcome (State × Editor)
unfolding handle_sigint die with_messages window_size get_window_size refresh
event_loop os s ed [] = waiting s ed
event_loop os s ed (sigint ∷ events) = handle_sigint s
event_loop os s ed (poll_interrupted ∷ events) = event_loop os s ed events
event_loop os s ed (poll_failed ∷ events) = die s "poll"
event_loop os s ed (not_readable ∷ events) = event_loop os s ed events
event_loop os s ed (would_block ∷ events) = event_loop os s ed events
event_loop os s ed (end_of_input ∷ events) = event_loop os s ed events
event_loop os s ed (read_failed ∷ events) = die s "read"
event_loop os s ed (keys bytes window ∷ events) =
    let after = process_keys os ed bytes in
    let s' = with_messages s ed after in
    let next : ℕ × ℕ → Outcome (State × Editor) = λ size.
      (let r = refresh os s' (get_window_size after size.0 size.1) in
        event_loop os r.0 r.1 events) in
    if after.should_exit then done (s', after) else (window_size s' window >>= next)

-- `editor_run`
unfoldable pub run : Os → State → Editor → List Event → Outcome (State × Editor)
unfolding refresh event_loop
run os s ed events = let r = refresh os s ed in event_loop os r.0 r.1 events

-- `main` until the loop returns.
unfoldable pub started_run :
    Os → Constants → Option (List ℕ) → Answers → List Event → Outcome (State × Editor)
unfolding start run
started_run os c path a events =
    start os c path a >>= λ (created : State × Editor). run os created.0 created.1 events

-- `editor_destroy`: `free(ed)` leaves `g_editor` as it is.
unfoldable pub editor_destroy : State → Outcome State
unfolding disable_raw_mode
editor_destroy s = disable_raw_mode s >>= λ t. done (record t { editor = dangling })

-- `main`: to return from it is to call `exit`.
unfoldable pub main : Os → Constants → Option (List ℕ) → Answers → List Event → Outcome Unit
unfolding started_run editor_destroy exit
main os c path a events = started_run os c path a events >>= λ (last : State × Editor).
    editor_destroy last.0 >>= λ s. exit s 0
