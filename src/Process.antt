-- ===== src/Process.antt =====
-- The process around the editor, in src/core.c: the settings of the terminal, the signal and the
-- exits, with `die` of src/util.c. What the system answers is given.
pub mod Settings
pub mod Main
pub mod Restored
pub mod Ends
pub mod Rounds
pub mod Shown
use ved.Common.{
  ℕ, Bool, false, true, Option, none, some, List, [], ◌∷◌, ◌++◌, ◌==◌, ◌||◌, bit_or, if◌then◌else◌,
}
use Prim.Native.String.{String}
use ved.Common.Int.{ℤ, pos, negsuc}
use ved.Text.{codes}
use ved.Editor.{Editor}
use Settings.{Termios, Constants, raw, zeroed, Call, put, complain, set_settings, set_flags}

-- `g_editor`
pub data Pointer : Type 0 where
  null live dangling : Pointer

-- `g_editor`, the two fields of `Editor` that are the terminal's, whether `atexit` has been called,
-- and the calls so far, newest first.
pub record State : Type 0 where
  pub editor : Pointer
  pub orig_termios : Termios
  pub stdin_flags : ℤ
  pub at_exit : Bool
  pub calls : List Call

-- What becomes of a part of the program: it returns, it waits for the next event, the process ends
-- with a status, or freed memory is read.
pub data Outcome (A : Type 0) : Type 0 where
  done : A → Outcome A
  waiting : State → Editor → Outcome A
  ended : ℕ → List Call → Outcome A
  faulted : List Call → Outcome A

infixl 5 ◌>>=◌
abbrev pub ◌>>=◌ : {A B : Type 0} → Outcome A → (A → Outcome B) → Outcome B
done a >>= f = f a
waiting s ed >>= f = waiting s ed
ended status calls >>= f = ended status calls
faulted calls >>= f = faulted calls

-- `ESC [ text`
abbrev pub csi : String → Call
csi text = put (27 ∷ b'[' ∷ codes text)

unfoldable pub called : State → Call → State
called s c = record s { calls = c ∷ s.calls }

-- The sequences that `enable_raw_mode` writes, and those of `disable_raw_mode`, newest first.
abbrev pub entering : List Call
entering = csi "?1049h" ∷ csi "?1006h" ∷ csi "?1002h" ∷ csi "?1000h" ∷ []

abbrev pub leaving : List Call
leaving = csi "?1049l" ∷ csi "?1006l" ∷ csi "?1002l" ∷ csi "?1000l" ∷ csi "m" ∷ csi "?25h" ∷ []

-- `if (stdin_flags >= 0) fcntl(STDIN_FILENO, F_SETFL, stdin_flags)`
unfoldable pub restore_flags : ℤ → List Call → List Call
restore_flags (pos f) calls = set_flags f ∷ calls
restore_flags (negsuc n) calls = calls

unfoldable pub disable_raw_mode : State → Outcome State
unfolding restore_flags
disable_raw_mode s = elim s.editor [
  | null ↦ done s
  | live ↦ done (record s {
    calls = restore_flags s.stdin_flags (set_settings s.orig_termios ∷ leaving ++ s.calls);
  })
  | dangling ↦ faulted (leaving ++ s.calls)
]

-- `exit(status)`, which calls what `atexit` was given; `_exit(status)` does not.
unfoldable pub exit : {A : Type 0} → State → ℕ → Outcome A
unfolding disable_raw_mode
exit s status =
    if s.at_exit then disable_raw_mode s >>= (λ t. ended status t.calls) else ended status s.calls

unfoldable pub die : {A : Type 0} → State → String → Outcome A
unfolding exit called
die s message = exit (called s (complain (codes message))) 1

unfoldable pub handle_sigint : {A : Type 0} → State → Outcome A
unfolding disable_raw_mode
handle_sigint s = disable_raw_mode s >>= (λ t. ended 130 t.calls)

-- What the system answers while the process starts: `none` and `false` are -1, SIG_ERR or NULL.
pub record Answers : Type 0 where
  pub calloc_ok : Bool
  pub signal_ok : Bool
  pub window : Option (ℕ × ℕ)
  pub get_flags : Option ℕ
  pub set_flags_ok : Bool
  pub get_settings : Option Termios
  pub set_settings_ok : Bool

-- `get_window_size` with the rows and columns that `ioctl` gives.
unfoldable pub window_size : State → Option (ℕ × ℕ) → Outcome (ℕ × ℕ)
unfolding die
window_size s none = die s "ioctl(TIOCGWINSZ)"
window_size s (some (rows, cols)) =
    if cols == 0 || rows == 0 then die s "ioctl(TIOCGWINSZ)" else done (rows, cols)

-- `enable_raw_mode` from `tcgetattr` on.
unfoldable pub set_raw : Constants → Answers → State → Outcome State
unfolding die called raw
set_raw c a s = elim a.get_settings [
  | none ↦ die s "tcgetattr"
  | some t ↦
      let s' = record s { orig_termios = t } in
      if a.set_settings_ok
      then done (record s' { calls = entering ++ set_settings (raw c t) ∷ s'.calls })
      else die s' "tcsetattr"
]

unfoldable pub enable_raw_mode : Constants → Answers → State → Outcome State
unfolding die called set_raw
enable_raw_mode c a s = elim a.get_flags [
  | none ↦ die (record s { stdin_flags = negsuc 0 }) "fcntl(F_GETFL)"
  | some f ↦
      let s' = record s { stdin_flags = pos f } in
      if a.set_flags_ok
      then set_raw c a (called s' (set_flags (bit_or f c.o_nonblock)))
      else die s' "fcntl(F_SETFL)"
]
