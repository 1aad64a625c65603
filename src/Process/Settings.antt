-- ===== src/Process/Settings.antt =====
-- The settings of the terminal that src/core.c changes: `struct termios`, and the flags of the
-- standard input.
use ved.Common.{ℕ, Option, none, some, List, [], ◌∷◌, ◌-◌, ◌^◌, bit_and, bit_or}

-- The members of `struct termios` that `enable_raw_mode` writes. The others are copied.
pub record Termios : Type 0 where
  pub c_iflag : ℕ
  pub c_oflag : ℕ
  pub c_cflag : ℕ
  pub c_lflag : ℕ
  pub vmin : ℕ
  pub vtime : ℕ
  pub others : List ℕ

-- The constants of <termios.h> and <fcntl.h>.
pub record Constants : Type 0 where
  pub brkint : ℕ
  pub icrnl : ℕ
  pub inpck : ℕ
  pub istrip : ℕ
  pub ixon : ℕ
  pub opost : ℕ
  pub cs8 : ℕ
  pub echo : ℕ
  pub icanon : ℕ
  pub iexten : ℕ
  pub isig : ℕ
  pub o_nonblock : ℕ

-- `word & ~mask`, of 32 bits.
unfoldable pub without : ℕ → ℕ → ℕ
without word mask = bit_and word (2 ^ 32 - 1 - mask)

unfoldable pub raw : Constants → Termios → Termios
unfolding without
raw c t = record t {
  c_iflag =
      without t.c_iflag
        (bit_or c.brkint (bit_or c.icrnl (bit_or c.inpck (bit_or c.istrip c.ixon))));
  c_oflag = without t.c_oflag c.opost;
  c_cflag = bit_or t.c_cflag c.cs8;
  c_lflag = without t.c_lflag (bit_or c.echo (bit_or c.icanon (bit_or c.iexten c.isig)));
  vmin = 0;
  vtime = 0;
}

-- What `calloc` leaves in `orig_termios`.
abbrev pub zeroed : Termios
zeroed = record {
  c_iflag = 0;
  c_oflag = 0;
  c_cflag = 0;
  c_lflag = 0;
  vmin = 0;
  vtime = 0;
  others = [];
}

-- What the process does to the terminal: bytes written, a message of `perror`, `tcsetattr` and
-- `fcntl(F_SETFL)`.
pub data Call : Type 0 where
  put : List ℕ → Call
  complain : List ℕ → Call
  set_settings : Termios → Call
  set_flags : ℕ → Call

-- The settings and the flags that stand after these calls, newest first, if any of them sets them.
abbrev pub settings_in : List Call → Option Termios
settings_in [] = none
settings_in (put bytes ∷ calls) = settings_in calls
settings_in (complain message ∷ calls) = settings_in calls
settings_in (set_settings t ∷ calls) = some t
settings_in (set_flags f ∷ calls) = settings_in calls

abbrev pub flags_in : List Call → Option ℕ
flags_in [] = none
flags_in (put bytes ∷ calls) = flags_in calls
flags_in (complain message ∷ calls) = flags_in calls
flags_in (set_settings t ∷ calls) = flags_in calls
flags_in (set_flags f ∷ calls) = some f
