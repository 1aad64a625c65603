-- ===== src/Mouse/Cases.antt =====
-- What a mouse report of src/input.c can do to the editor: nothing, or one of its five actions.
use ved.Common.{ℕ, zero, suc, Bool, List, [], ◌∷◌, ◌==◌, if_cases, ltb}
use ved.Common.Int.{ℤ, pos, negsuc, is_pos}
use ved.Editor.{Editor}
use ved.Mouse.{
  strtol, mouse_frame, wheel_up, wheel_down, button_press, button_release, drag, mouse_button,
  text_rows, mouse_at, mouse_from_y, mouse_from_x, handle_mouse_event,
}

-- A property of the editor that the actions keep.
module _ (P : Editor → Type 0) (ed : Editor) (same : P ed) (up : P (wheel_up ed))
    (down : P (wheel_down ed)) (press : (x y : ℕ) → P (button_press ed (mouse_frame ed x y)))
    (release : (x y : ℕ) → P (button_release ed (mouse_frame ed x y)))
    (dragged : (x y : ℕ) → P (drag ed (mouse_frame ed x y))) where
  mouse_button-cases : (b : ℤ) (x y : ℕ) (pressed : Bool) → P (mouse_button ed b x y pressed)
  mouse_button-cases b x y pressed =
      unfold mouse_button in
      if_cases P (is_pos b 64) (λ _. up)
        (λ _.
          if_cases P (is_pos b 65) (λ _. down)
            (λ _.
              if_cases P (is_pos b 0) (λ _. if_cases P pressed (λ _. press x y) (λ _. release x y))
                (λ _. if_cases P (is_pos b 32) (λ _. dragged x y) (λ _. same))))

  mouse_at-cases : (b x y : ℤ) (pressed : Bool) → P (mouse_at ed b x y pressed)
  unfolding mouse_at
  mouse_at-cases b (pos (suc x)) (pos (suc y)) pressed =
      if_cases P (ltb (text_rows ed) (suc y)) (λ _. same)
        (λ _. mouse_button-cases b (suc x) (suc y) pressed)
  mouse_at-cases b (pos (suc x)) (pos zero) pressed = same
  mouse_at-cases b (pos (suc x)) (negsuc y) pressed = same
  mouse_at-cases b (pos zero) y pressed = same
  mouse_at-cases b (negsuc x) y pressed = same

  mouse_from_y-cases : (b x : ℤ) (bytes : List ℕ) (type : ℕ) → P (mouse_from_y ed b x bytes type).1
  unfolding mouse_from_y
  mouse_from_y-cases b x [] type = same
  mouse_from_y-cases b x (c ∷ bytes) type =
      if_cases (λ (o : Bool × Editor). P o.1) (c == b';') (λ _. mouse_at-cases b x _ _) (λ _. same)

  mouse_from_x-cases : (b : ℤ) (bytes : List ℕ) (type : ℕ) → P (mouse_from_x ed b bytes type).1
  unfolding mouse_from_x
  mouse_from_x-cases b [] type = same
  mouse_from_x-cases b (c ∷ bytes) type =
      if_cases (λ (o : Bool × Editor). P o.1) (c == b';')
        (λ _. mouse_from_y-cases b (strtol bytes).0 (strtol bytes).1 type) (λ _. same)

  pub handle_mouse_event-cases : (seq : List ℕ) (type : ℕ) → P (handle_mouse_event ed seq type).1
  handle_mouse_event-cases seq type =
      unfold handle_mouse_event in mouse_from_x-cases (strtol seq).0 (strtol seq).1 type
