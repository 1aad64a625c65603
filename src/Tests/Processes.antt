-- ===== src/Tests/Processes.antt =====
-- Processes: ends, a start without a terminal, and a window that is waited in.
use ved.Common.{true, none, some, List, [], ◌∷◌, inl, refl, arith}
use ved.Process.{Answers}
use ved.Process.Settings.{Termios, Constants}
use ved.Process.Main.{Event, keys, poll_interrupted, read_failed, started_run, main}
use ved.Process.Restored.{Accepts, Leaves, main-Leaves}
use ved.Process.Ends.{Zeroes, NeverZero, main-Zeroes, main-NeverZero}
use ved.Process.Shown.{WaitsShown, main-WaitsShown}
use ved.Tests.{bare_os}

abbrev constants : Constants
constants = record {
  brkint = 2;
  icrnl = 256;
  inpck = 16;
  istrip = 32;
  ixon = 1024;
  opost = 1;
  cs8 = 48;
  echo = 8;
  icanon = 2;
  iexten = 32768;
  isig = 1;
  o_nonblock = 2048;
}

abbrev cooked : Termios
cooked = record {
  c_iflag = 1280;
  c_oflag = 5;
  c_cflag = 191;
  c_lflag = 35387;
  vmin = 1;
  vtime = 0;
  others = 3 ∷ 28 ∷ [];
}

abbrev answers : Answers
answers = record {
  calloc_ok = true;
  signal_ok = true;
  window = some (24, 80);
  get_flags = some 2;
  set_flags_ok = true;
  get_settings = some cooked;
  set_settings_ok = true;
}

answers-Accepts : Accepts answers cooked 2
answers-Accepts = record {
  memory = refl;
  signal = refl;
  rows = 24;
  cols = 80;
  has_row = omega arith;
  has_col = omega arith;
  window = refl;
  flags = refl;
  settings = refl;
  sets_flags = refl;
  sets_settings = refl;
}

-- A key, an interrupted `poll`, and C-x C-c.
abbrev leaving_events : List Event
leaving_events =
    keys (97 ∷ []) (some (24, 80)) ∷ poll_interrupted ∷ keys (24 ∷ 3 ∷ []) (some (24, 80)) ∷ []

main-Leaves_example :
    Leaves constants cooked 2 (main bare_os constants none answers (read_failed ∷ []))
main-Leaves_example =
    main-Leaves bare_os constants cooked 2 none answers (read_failed ∷ []) answers-Accepts

-- The output is no terminal, so there is no window.
main-Zeroes_example :
    Zeroes (main bare_os constants none (record answers { window = none }) leaving_events)
main-Zeroes_example =
    main-Zeroes bare_os constants none (record answers { window = none }) leaving_events refl refl
      (inl tt)

main-NeverZero_example :
    NeverZero
      (started_run bare_os constants none answers leaving_events)
      (main bare_os constants none answers leaving_events)
main-NeverZero_example = main-NeverZero bare_os constants none answers leaving_events

main-WaitsShown_example :
    WaitsShown (main bare_os constants none answers (keys (97 ∷ 13 ∷ []) (some (2, 10)) ∷ []))
main-WaitsShown_example =
    main-WaitsShown bare_os constants none answers (keys (97 ∷ 13 ∷ []) (some (2, 10)) ∷ [])
      (omega arith) (omega arith, tt)
