-- ===== src/Process/Shown.antt =====
-- The loop of src/core.c leaves the cursor in the window, whatever `poll` and `read` do.
use mathlib.Core.Path.{subst}
use ved.Common.{ℕ, ◌≡◌, ◌<◌, ◌⊎◌, inl, inr, true, false, Option, none, some, List, [], ◌∷◌}
use ved.Os.{Os}
use ved.Editor.{Editor}
use ved.Process.{Outcome, done, waiting, ended, faulted, Answers}
use ved.Loop.Shown.{IsShown, HaveRows, editor_run-IsShown}
use ved.Process.Rounds.{inputs_of, WaitsWith, reported, main-WaitsWith}
use ved.Process.Settings.{Constants}
use ved.Process.Main.{
  Event, keys, sigint, poll_interrupted, poll_failed, not_readable, would_block, end_of_input,
  read_failed, main,
}

-- Every window that `ioctl` reports has a row above the status bar.
abbrev pub IsTall : Option (ℕ × ℕ) → Type 0
IsTall window = 1 < (reported window).0

abbrev pub AllTall : List Event → Type 0
AllTall [] = Unit
AllTall (keys bytes none ∷ events) = AllTall events
AllTall (keys bytes (some (rows, cols)) ∷ events) = (1 < rows) × AllTall events
AllTall (sigint ∷ events) = AllTall events
AllTall (poll_interrupted ∷ events) = AllTall events
AllTall (poll_failed ∷ events) = AllTall events
AllTall (not_readable ∷ events) = AllTall events
AllTall (would_block ∷ events) = AllTall events
AllTall (end_of_input ∷ events) = AllTall events
AllTall (read_failed ∷ events) = AllTall events

AllTall-HaveRows : (events : List Event) → AllTall events → HaveRows (inputs_of events)
AllTall-HaveRows [] h = tt
AllTall-HaveRows (keys bytes none ∷ events) h = AllTall-HaveRows events h
AllTall-HaveRows (keys bytes (some (rows, cols)) ∷ events) h = (h.0, AllTall-HaveRows events h.1)
AllTall-HaveRows (sigint ∷ events) h = AllTall-HaveRows events h
AllTall-HaveRows (poll_interrupted ∷ events) h = AllTall-HaveRows events h
AllTall-HaveRows (poll_failed ∷ events) h = AllTall-HaveRows events h
AllTall-HaveRows (not_readable ∷ events) h = AllTall-HaveRows events h
AllTall-HaveRows (would_block ∷ events) h = AllTall-HaveRows events h
AllTall-HaveRows (end_of_input ∷ events) h = AllTall-HaveRows events h
AllTall-HaveRows (read_failed ∷ events) h = AllTall-HaveRows events h

-- The editor of a process that waits.
abbrev pub WaitsShown : Outcome Unit → Type 0
WaitsShown (done x) = Unit
WaitsShown (waiting s ed) = (ed.should_exit ≡ false) × IsShown ed
WaitsShown (ended status calls) = Unit
WaitsShown (faulted calls) = Unit

shown-of :
    (last : Editor) (m : Outcome Unit)
    → WaitsWith last m
    → (last.should_exit ≡ true) ⊎ IsShown last
    → WaitsShown m
shown-of last (done x) w h = tt
shown-of last (waiting s ed) (e, goes_on) h = (
  goes_on,
  elim (subst (λ x. (x.should_exit ≡ true) ⊎ IsShown x) e h) [ inl exits ↦ cc | inr shown ↦ shown ],
)
shown-of last (ended status calls) w h = tt
shown-of last (faulted calls) w h = tt

-- Whatever the system answers, and whatever `poll`, `read`, the keys and the signal do, as long as
-- every window that `ioctl` reports has a row above the status bar: when `main` waits for more, the
-- program has not been told to exit, and the cursor is on a row of the buffer that the window shows.
pub main-WaitsShown :
    (os : Os) (c : Constants) (path : Option (List ℕ)) (a : Answers) (events : List Event)
    → IsTall a.window
    → AllTall events
    → WaitsShown (main os c path a events)
main-WaitsShown os c path a events tall more = shown-of _ _ (main-WaitsWith os c path a events) (
    editor_run-IsShown os path (reported a.window).0 (reported a.window).1 (inputs_of events) tall
      (AllTall-HaveRows events more))
