-- ===== src/VgaText/Bounds.antt =====
-- Where the cursor of drivers/vga_text.c can go.
use awk.Base.{
  ℕ, zero, suc, ◌+◌, ◌-◌, ◌%◌, ◌<◌, ◌≡◌, ◌⊎◌, refl, ◌∙◌, Bool, true, false, ◌||◌, ◌&&◌, arith,
  Bool-cases, ◌==◌, ltb, leb, inl, inr, if◌then◌else◌, add32,
}
use awk.Run.{Run, Returns, returns, bind, fault, ◌>>◌}
use awk.VgaText.{
  Screen, assign, colored, vga_get_framebuffer, ScrollDirection, scroll_down, scroll_up,
  vga_print_char, vga_put_cursor_at, keep_column, raise_all, clear_last_line, scroll_text,
  replace_last_printed, vga_scroll, clear_columns, clear_lines, vga_clear_screen, move_in_line,
  blank_at_cursor, clamp_column, backspace_line, backspace, tab, line_feed, is_normal,
  process_special, vga_process_char,
}
use awk.VgaText.Writes.{
  IsOnScreen, position, move_in_line-moves, vga_process_char-next, vga_process_char-fault,
}

-- The run ends with the cursor on the screen.
abbrev pub StaysOnScreen : {A : Type 0} → Run Screen A → Type 0
StaysOnScreen r = Returns (λ _ t. IsOnScreen t) r

vga_print_char-keeps :
    (line column c : ℕ) (s : Screen)
    → Returns (λ _ t. t.screen_cursor ≡ s.screen_cursor) (vga_print_char line column c s)
unfolding vga_print_char
vga_print_char-keeps line column c s =
    elim (Bool-cases (ltb 24 (line % 256) || ltb 79 (column % 256))) [
      | inl e ↦ rw e (returns refl)
      | inr e ↦ rw e (returns refl)
    ]

clear_last_line-Returns :
    (rounds i : ℕ) (s : Screen) → Returns (λ _ t. Unit {0}) (clear_last_line rounds i s)
unfolding clear_last_line
clear_last_line-Returns zero i s = returns tt
clear_last_line-Returns (suc rounds) i s =
    bind (vga_print_char-keeps 24 i 32 s) (λ a t e. clear_last_line-Returns rounds (suc i) t)

scroll_text-Returns :
    (d : ScrollDirection) (n : ℕ) (s : Screen) → Returns (λ _ t. Unit {0}) (scroll_text d n s)
unfolding scroll_text
scroll_text-Returns scroll_down n s = clear_last_line-Returns 80 0 (raise_all n s)
scroll_text-Returns scroll_up n s = returns tt

cursor_after_scroll : (n : ℕ) → 0 < n → (25 - (if ltb 25 n then 25 else n)) % 256 < 25
cursor_after_scroll n h = ground arith

pub vga_scroll-StaysOnScreen :
    (d : ScrollDirection) (n : ℕ) (s : Screen) → 0 < n → StaysOnScreen (vga_scroll d n s)
unfolding vga_scroll vga_put_cursor_at replace_last_printed
vga_scroll-StaysOnScreen d n s h =
    bind (scroll_text-Returns d (if ltb 25 n then 25 else n) s)
      (λ a t u. returns (omega arith, cursor_after_scroll n h))

move_in_line-StaysOnScreen :
    (column : ℕ) (s : Screen)
    → column < 80
    → s.screen_cursor.y < 25
    → StaysOnScreen (move_in_line column s)
move_in_line-StaysOnScreen column s hc hy =
    rw (move_in_line-moves column s hc hy) (returns (hc, hy))

blank_at_cursor-StaysOnScreen : (s : Screen) → IsOnScreen s → StaysOnScreen (blank_at_cursor s)
unfolding blank_at_cursor
blank_at_cursor-StaysOnScreen s on =
    bind (vga_print_char-keeps s.screen_cursor.y s.screen_cursor.x 32 s)
      (λ a t e. returns (rw e on))

clear_columns-keeps :
    (rounds i j : ℕ) (s : Screen) → (clear_columns rounds i j s).screen_cursor ≡ s.screen_cursor
unfolding clear_columns
clear_columns-keeps zero i j s = refl
clear_columns-keeps (suc rounds) i j s =
    clear_columns-keeps rounds i (suc j)
      (record s { memory = assign s.memory (vga_get_framebuffer i j) (colored s.screen_scheme 32) })

clear_lines-keeps :
    (rounds i : ℕ) (s : Screen) → (clear_lines rounds i s).screen_cursor ≡ s.screen_cursor
unfolding clear_lines
clear_lines-keeps zero i s = refl
clear_lines-keeps (suc rounds) i s =
    let t = clear_columns 80 i 0 s in
    clear_lines-keeps rounds (suc i) (record t { last_columns = assign t.last_columns i 0 })
    ∙ clear_columns-keeps 80 i 0 s

tab-StaysOnScreen : (s : Screen) → IsOnScreen s → StaysOnScreen (tab s)
unfolding tab
tab-StaysOnScreen s (hx, hy) =
    let e8 : (s.screen_cursor.x + 8) % 4294967296 ≡ s.screen_cursor.x + 8 = omega arith in
    elim (Bool-cases (ltb (s.screen_cursor.x + 8) 79)) [
      | inl e ↦
          let near : (s.screen_cursor.x + (8 - s.screen_cursor.x % 8)) % 4294967296 < 80 =
            ground arith in
          rw (e8, e)
            (move_in_line-StaysOnScreen (add32 s.screen_cursor.x (8 - s.screen_cursor.x % 8)) s near
              hy)
      | inr e ↦ rw (e8, e) (move_in_line-StaysOnScreen 79 s (omega arith) hy)
    ]

line_feed-StaysOnScreen : (s : Screen) → IsOnScreen s → StaysOnScreen (line_feed s)
unfolding line_feed vga_put_cursor_at keep_column
line_feed-StaysOnScreen s (hx, hy) = elim (Bool-cases (ltb s.screen_cursor.y 24)) [
  | inl e ↦
      let ey : (s.screen_cursor.y + 1) % 256 ≡ suc s.screen_cursor.y = omega arith in
      let on : ltb (suc s.screen_cursor.y) 25 ≡ true = ground arith in
      rw (e, ey, on) (returns (omega arith, ground arith))
  | inr e ↦ rw e (vga_scroll-StaysOnScreen scroll_down 1 s (omega arith))
]

back_in_line :
    (column : ℕ) (s : Screen)
    → column < 80
    → s.screen_cursor.y < 25
    → StaysOnScreen ((do move_in_line column; blank_at_cursor) s)
back_in_line column s hc hy =
    bind (move_in_line-StaysOnScreen column s hc hy) (λ a t on. blank_at_cursor-StaysOnScreen t on)

-- At the start of a line, to the last column of the line above.
back_to_line :
    (line : ℕ) (s : Screen)
    → line < 25
    → StaysOnScreen ((do clamp_column line; backspace_line line) s)
unfolding clamp_column backspace_line vga_put_cursor_at
back_to_line line s h =
    let el : line % 256 ≡ line = omega arith in
    let on : ltb line 25 ≡ true = ground arith in
    elim (Bool-cases (leb 80 (s.last_columns line))) [
      | inl e ↦
          let self : (line == line) ≡ true = ground arith in
          rw (on, e, el, self)
            (blank_at_cursor-StaysOnScreen
              (record s {
                screen_cursor = record { x = 79; y = line };
                last_columns = assign s.last_columns line 79;
              })
              (omega arith, h))
      | inr e ↦
          let narrow : s.last_columns line < 80 = ground arith in
          let ec : s.last_columns line % 256 ≡ s.last_columns line = omega arith in
          rw (on, e, el, ec)
            (blank_at_cursor-StaysOnScreen
              (record s { screen_cursor = record { x = s.last_columns line; y = line } })
              (narrow, h))
    ]

backspace-StaysOnScreen : (s : Screen) → IsOnScreen s → StaysOnScreen (backspace s)
unfolding backspace
backspace-StaysOnScreen s (hx, hy) =
    let c = s.screen_cursor in
    let last = s.last_printed_cursor in
    let back = back_in_line (c.x - 1) s (omega arith) hy in
    let above = back_to_line (c.y - 1) s (omega arith) in
    elim (Bool-cases (last.y == c.y)) [
      | inl e ↦ elim (Bool-cases (ltb last.x c.x)) [
        | inl f ↦ rw (e, f) back
        | inr f ↦ rw (e, f) (returns (hx, hy))
      ]
      | inr e ↦ elim (Bool-cases (ltb last.y c.y)) [
        | inl f ↦ elim (Bool-cases (ltb 0 c.x)) [
          | inl g ↦ rw (e, f, g) back
          | inr g ↦ rw (e, f, g) above
        ]
        | inr f ↦ rw (e, f) (returns (hx, hy))
      ]
    ]

process_special-StaysOnScreen :
    (c : ℕ) (s : Screen) → IsOnScreen s → StaysOnScreen (process_special c s)
unfolding process_special vga_clear_screen
process_special-StaysOnScreen c s (hx, hy) =
    let on : IsOnScreen s = (hx, hy) in
    elim (Bool-cases (c == 8)) [
      | inl e8 ↦ rw e8 (backspace-StaysOnScreen s on)
      | inr e8 ↦ elim (Bool-cases (c == 9)) [
        | inl e9 ↦ rw (e8, e9) (tab-StaysOnScreen s on)
        | inr e9 ↦ elim (Bool-cases (c == 10)) [
          | inl e10 ↦ rw (e8, e9, e10) (line_feed-StaysOnScreen s on)
          | inr e10 ↦ elim (Bool-cases (c == 12)) [
            | inl e12 ↦ rw (e8, e9, e10, e12) (returns (rw (clear_lines-keeps 25 0 s) on))
            | inr e12 ↦ elim (Bool-cases (c == 13)) [
              | inl e13 ↦
                  rw (e8, e9, e10, e12, e13) (move_in_line-StaysOnScreen 0 s (omega arith) hy)
              | inr e13 ↦ rw (e8, e9, e10, e12, e13) (returns on)
            ]
          ]
        ]
      ]
    ]

-- A printable character with the cursor in the last case of the screen.
abbrev pub is_last : (c : ℕ) → Screen → Bool
is_last c s = is_normal c && (position s == 1999)

normal_char :
    (c : ℕ) (s : Screen)
    → IsOnScreen s
    → is_normal c ≡ true
    → (position s == 1999) ≡ false
    → StaysOnScreen (vga_process_char c s)
normal_char c s (hx, hy) normal e =
    let at : position s < 2000 = omega arith in
    let (t, run, (on1, _, _, _)) = vga_process_char-next c s normal (hx, hy) (ground arith) in
    rw run (returns on1)

special_char :
    (c : ℕ) (s : Screen) → IsOnScreen s → is_normal c ≡ false → StaysOnScreen (vga_process_char c s)
unfolding vga_process_char
special_char c s on n = rw n (process_special-StaysOnScreen c s on)

-- If the cursor is on the screen, then either the character is printable, the cursor is in the last
-- case and `vga_process_char` makes an invalid access, or this is not so and it returns with the
-- cursor on the screen.
pub vga_process_char-StaysOnScreen :
    (c : ℕ) (s : Screen)
    → IsOnScreen s
    → ((is_last c s ≡ true) × (vga_process_char c s ≡ fault))
      ⊎ ((is_last c s ≡ false) × StaysOnScreen (vga_process_char c s))
vga_process_char-StaysOnScreen c s on = elim (Bool-cases (is_normal c)) [
  | inl n ↦ elim (Bool-cases (position s == 1999)) [
    | inl e ↦ inl (rw (n, e) refl, vga_process_char-fault c s n on (ground arith))
    | inr e ↦ inr (rw (n, e) refl, normal_char c s on n e)
  ]
  | inr n ↦ inr (rw n refl, special_char c s on n)
]
