-- ===== src/VgaText/Writes.antt =====
-- Printable characters on the text screen of drivers/vga_text.c.
use awk.Base.{
  ℕ, suc, ◌+◌, ◌*◌, ◌%◌, ◌<◌, ◌≡◌, refl, true, false, ◌||◌, ◌&&◌, List, [], ◌∷◌, arith, Bool-cases,
  ltb, leb, length, Ptr, inl, inr,
}
use awk.Run.{ok, fault, ◌>>◌}
use awk.Err.{no_err}
use awk.VgaText.{
  Screen, Colorscheme, assign, colored, vga_get_framebuffer, vga_print_char, vga_put_cursor_at,
  keep_column, print_at_cursor, end_of_line, move_in_line, end_of_screen, is_normal,
  vga_process_char,
}

-- The cursor stands on one of the 25 lines and 80 columns.
abbrev pub IsOnScreen : Screen → Type 0
IsOnScreen s = (s.screen_cursor.x < 80) × (s.screen_cursor.y < 25)

-- The number of the case of the screen at the cursor, from left to right and from top to bottom.
abbrev pub position : Screen → ℕ
position s = s.screen_cursor.x + s.screen_cursor.y * 80

-- The address of a case.
abbrev pub case_at : (n : ℕ) → ℕ
case_at n = 0xB8000 + 2 * n

pub vga_get_framebuffer-case_at :
    (line column : ℕ)
    → line < 25
    → column < 80
    → vga_get_framebuffer line column ≡ case_at (column + line * 80)
unfolding vga_get_framebuffer
vga_get_framebuffer-case_at line column hl hc = ground arith

pub vga_print_char-writes :
    (line column c : ℕ) (s : Screen)
    → line < 25
    → column < 80
    → vga_print_char line column c s
      ≡ ok no_err (record s {
        memory = assign s.memory (case_at (column + line * 80)) (colored s.screen_scheme c);
      })
unfolding vga_print_char
vga_print_char-writes line column c s hl hc =
    let el : line % 256 ≡ line = omega arith in
    let ec : column % 256 ≡ column = omega arith in
    let off : (ltb 24 line || ltb 79 column) ≡ false = ground arith in
    let ef = vga_get_framebuffer-case_at line column hl hc in rw (el, ec, off, ef) refl

-- The screen after `c` was printed at the cursor, which goes to another place.
abbrev pub printed : (c : ℕ) → (x y : ℕ) → Screen → Screen
printed c x y s = record s {
  memory = assign s.memory (case_at (position s)) (colored s.screen_scheme c);
  screen_cursor = record { x = x; y = y };
}

print_at_cursor-printed :
    (c : ℕ) (s : Screen)
    → IsOnScreen s
    → print_at_cursor c s ≡ ok no_err (printed c (suc s.screen_cursor.x) s.screen_cursor.y s)
unfolding print_at_cursor
print_at_cursor-printed c s (hx, hy) =
    let ex : (s.screen_cursor.x + 1) % 4294967296 ≡ suc s.screen_cursor.x = omega arith in
    rw ex (
      vga_print_char-writes s.screen_cursor.y s.screen_cursor.x c
        (record s { screen_cursor = record { x = suc s.screen_cursor.x; y = s.screen_cursor.y } })
        hy hx)

pub move_in_line-moves :
    (column : ℕ) (s : Screen)
    → column < 80
    → s.screen_cursor.y < 25
    → move_in_line column s
      ≡ ok tt (record s {
        screen_cursor = record { x = column; y = s.screen_cursor.y };
        last_columns = assign s.last_columns s.screen_cursor.y column;
      })
unfolding move_in_line vga_put_cursor_at keep_column
move_in_line-moves column s hc hy =
    let ec : column % 256 ≡ column = omega arith in
    let ey : s.screen_cursor.y % 256 ≡ s.screen_cursor.y = omega arith in
    let on : ltb s.screen_cursor.y 25 ≡ true = ground arith in rw (ey, ec, on, ec) refl

-- A step to the next case in the same line, in the next line, and off the screen.
print_in_line :
    (c : ℕ) (s : Screen)
    → s.screen_cursor.x < 79
    → s.screen_cursor.y < 25
    → (do end_of_line; end_of_screen) (printed c (suc s.screen_cursor.x) s.screen_cursor.y s)
      ≡ ok tt (record (printed c (suc s.screen_cursor.x) s.screen_cursor.y s) {
        last_columns = assign s.last_columns s.screen_cursor.y (suc s.screen_cursor.x);
      })
unfolding end_of_line end_of_screen
print_in_line c s hx hy =
    let on : ltb 79 (suc s.screen_cursor.x) ≡ false = ground arith in
    let above : leb 25 s.screen_cursor.y ≡ false = ground arith in
    rw (on, above)
      (move_in_line-moves (suc s.screen_cursor.x)
        (printed c (suc s.screen_cursor.x) s.screen_cursor.y s) (omega arith) hy)

-- The last column of the line that the cursor goes to is kept twice.
print_to_next_line :
    (c : ℕ) (s : Screen)
    → s.screen_cursor.y < 24
    → (do end_of_line; end_of_screen) (printed c 80 s.screen_cursor.y s)
      ≡ ok tt (record (printed c 0 (suc s.screen_cursor.y) s) {
        last_columns =
            assign (assign s.last_columns (suc s.screen_cursor.y) 0) (suc s.screen_cursor.y) 0;
      })
unfolding end_of_line end_of_screen vga_put_cursor_at keep_column
print_to_next_line c s hy =
    let ey : (s.screen_cursor.y + 1) % 4294967296 % 256 ≡ suc s.screen_cursor.y = omega arith in
    let on : ltb (suc s.screen_cursor.y) 25 ≡ true = ground arith in
    let above : leb 25 (suc s.screen_cursor.y) ≡ false = ground arith in
    rw (ey, on, above)
      (move_in_line-moves 0
        (record (printed c 0 (suc s.screen_cursor.y) s) {
          last_columns = assign s.last_columns (suc s.screen_cursor.y) 0;
        })
        (omega arith) (omega arith))

print_off_screen :
    (c : ℕ) (s : Screen)
    → s.screen_cursor.y ≡ 24
    → (do end_of_line; end_of_screen) (printed c 80 s.screen_cursor.y s) ≡ fault
unfolding end_of_line vga_put_cursor_at keep_column
print_off_screen c s e = rw e refl

-- The screen `t` is `s` with `c` at the cursor and the cursor on the next case.
abbrev pub Follows : (c : ℕ) → (s t : Screen) → Type 0
Follows c s t =
    IsOnScreen t
    × (position t ≡ suc (position s))
    × (t.memory ≡ assign s.memory (case_at (position s)) (colored s.screen_scheme c))
    × (t.screen_scheme ≡ s.screen_scheme)

pub vga_process_char-next :
    (c : ℕ) (s : Screen)
    → is_normal c ≡ true
    → IsOnScreen s
    → suc (position s) < 2000
    → (t : Screen) × (vga_process_char c s ≡ ok tt t) × Follows c s t
unfolding vga_process_char
vga_process_char-next c s normal (hx, hy) room =
    let at_cursor = print_at_cursor-printed c s (hx, hy) in
    let x = s.screen_cursor.x in
    let y = s.screen_cursor.y in
    elim (Bool-cases (ltb x 79)) [
      | inl e ↦
          let h : x < 79 = ground arith in
          (
            record (printed c (suc x) y s) { last_columns = assign s.last_columns y (suc x) },
            rw (normal, at_cursor) (print_in_line c s h hy),
            ((omega arith, hy), omega arith, refl, refl),
          )
      | inr e ↦
          let ex : suc x ≡ 80 = ground arith in
          let h : y < 24 = omega arith in
          (
            record (printed c 0 (suc y) s) {
              last_columns = assign (assign s.last_columns (suc y) 0) (suc y) 0;
            },
            rw (normal, at_cursor, ex) (print_to_next_line c s h),
            ((omega arith, omega arith), omega arith, refl, refl),
          )
    ]

-- A printable character in the last case moves the cursor below the screen, and the column is
-- written behind the end of the array.
pub vga_process_char-fault :
    (c : ℕ) (s : Screen)
    → is_normal c ≡ true
    → IsOnScreen s
    → position s ≡ 1999
    → vga_process_char c s ≡ fault
unfolding vga_process_char
vga_process_char-fault c s normal (hx, hy) e =
    let ex : suc s.screen_cursor.x ≡ 80 = omega arith in
    let ey : s.screen_cursor.y ≡ 24 = omega arith in
    rw (normal, print_at_cursor-printed c s (hx, hy), ex) (print_off_screen c s ey)

-- The cases from `n` on hold the characters of `string`.
abbrev pub Holds : (scheme : Colorscheme) → (n : ℕ) → (string : List ℕ) → (Ptr → ℕ) → Type 0
Holds scheme n [] memory = Unit {0}
Holds scheme n (c ∷ string) memory =
    (memory (case_at n) ≡ colored scheme c) × Holds scheme (suc n) string memory

-- What lies outside the `k` cases from `n` on is as it was.
abbrev pub SameOutside : (n k : ℕ) → (m m' : Ptr → ℕ) → Type 0
SameOutside n k m m' =
    (a : Ptr) → (leb (case_at n) a && ltb a (case_at (n + k))) ≡ false → m' a ≡ m a

abbrev pub AllNormal : List ℕ → Type 0
AllNormal [] = Unit {0}
AllNormal (c ∷ string) = (is_normal c ≡ true) × AllNormal string

-- The whole string stands behind what was there, and the cursor behind it.
abbrev pub Written : (string : List ℕ) → (s t : Screen) → Type 0
Written string s t =
    IsOnScreen t
    × (position t ≡ position s + length string)
    × Holds s.screen_scheme (position s) string t.memory
    × SameOutside (position s) (length string) s.memory t.memory
