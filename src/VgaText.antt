-- ===== src/VgaText.antt =====
-- The text screen of drivers/vga_text.c. The memory of the screen holds words of 16 bits at even
-- addresses. The position that `vga_put_cursor_at` sends to the ports and the serial output of a debugging
-- build are left out. A character is the bit pattern of a `char`; one of 128 and more is negative.
pub mod Writes
pub mod Bounds
mod Tests
pub use awk.Base.{assign}
use awk.Base.{
  ℕ, zero, suc, ◌+◌, ◌-◌, ◌*◌, ◌/◌, ◌%◌, ◌^◌, ◌&&◌, ◌||◌, Bool, Ptr, List, [], ◌∷◌, ◌==◌, ltb, leb,
  add32, if◌then◌else◌,
}
use awk.Run.{Cmd, ok, fault, pure, ◌>>=◌, ◌>>◌}
use awk.Err.{Err, no_err, out_of_bound}

abbrev pub screen_col_size : ℕ
screen_col_size = 80

abbrev pub screen_line_size : ℕ
screen_line_size = 25

abbrev pub framebuffer : Ptr
framebuffer = 0xB8000

-- `colorscheme_t`, less its member for other drivers.
pub record Colorscheme : Type 0 where
  pub foreground : ℕ
  pub background : ℕ

pub record Cursor : Type 0 where
  pub x : ℕ
  pub y : ℕ

-- The variables of the file and the memory of the screen.
pub record Screen : Type 0 where
  pub screen_scheme : Colorscheme
  pub screen_cursor : Cursor
  pub last_printed_cursor : Cursor
  pub last_columns : ℕ → ℕ
  pub memory : Ptr → ℕ

pub data ScrollDirection : Type 0 where
  scroll_down scroll_up : ScrollDirection

-- A character in the colors of the screen: the three parts do not overlap, so `|` is their sum.
unfoldable pub colored : (scheme : Colorscheme) → (character : ℕ) → ℕ
colored scheme character =
    character + scheme.background / 16 % 16 * 2 ^ 12 + scheme.foreground % 16 * 2 ^ 8

unfoldable pub vga_get_framebuffer : (line column : ℕ) → Ptr
vga_get_framebuffer line column =
    if ltb (screen_line_size - 1) line || ltb (screen_col_size - 1) column
    then framebuffer
    else framebuffer + 2 * (column + line * screen_col_size)

unfoldable pub vga_print_char : (line column character : ℕ) → Cmd Screen Err
vga_print_char line0 column0 character s =
    let line = line0 % 2 ^ 8 in
    let column = column0 % 2 ^ 8 in
    if ltb (screen_line_size - 1) line || ltb (screen_col_size - 1) column
    then ok out_of_bound s
    else ok no_err (record s {
      memory =
          assign s.memory (vga_get_framebuffer line column) (colored s.screen_scheme character);
    })

unfoldable pub vga_put_cursor_at : (line column : ℕ) → Cmd Screen Err
vga_put_cursor_at line column s =
    ok no_err (record s { screen_cursor = record { x = column % 2 ^ 8; y = line % 2 ^ 8 } })

-- `last_columns[screen_cursor.y] = screen_cursor.x`; the array has an element for each line.
unfoldable pub keep_column : Cmd Screen (Unit {0})
keep_column s =
    if ltb s.screen_cursor.y screen_line_size
    then ok tt (record s {
      last_columns = assign s.last_columns s.screen_cursor.y (s.screen_cursor.x % 2 ^ 8);
    })
    else fault

-- `memmove` of a line to another, and of its last column.
unfoldable pub raise_line : (i : ℕ) → Screen → Screen
raise_line i s = record s {
  memory = λ a.
      (let to = vga_get_framebuffer i 0 in
        if leb to a && ltb a (to + 2 * screen_col_size)
        then s.memory (vga_get_framebuffer (i + 1) 0 + (a - to))
        else s.memory a);
  last_columns = assign s.last_columns i (s.last_columns (i + 1));
}

-- The lines `i`, `i + 1` and so on, `rounds` of them.
unfoldable pub raise_lines : (rounds i : ℕ) → Screen → Screen
raise_lines zero i s = s
raise_lines (suc rounds) i s = raise_lines rounds (suc i) (raise_line i s)

unfoldable pub raise_all : (rounds : ℕ) → Screen → Screen
raise_all zero s = s
raise_all (suc rounds) s0 =
    let s = raise_lines (screen_line_size - 1) 0 s0 in
    raise_all rounds (record s { last_columns = assign s.last_columns (screen_line_size - 1) 0 })

unfoldable pub clear_last_line : (rounds i : ℕ) → Cmd Screen (Unit {0})
clear_last_line zero i = pure tt
clear_last_line (suc rounds) i = do
  vga_print_char (screen_line_size - 1) i 32
  clear_last_line rounds (suc i)

unfoldable pub scroll_text : (direction : ScrollDirection) → (to_scroll : ℕ) → Cmd Screen (Unit {0})
scroll_text scroll_down to_scroll s = clear_last_line screen_col_size 0 (raise_all to_scroll s)
scroll_text scroll_up to_scroll s = ok tt s

-- "Replace cursor" and what follows it.
unfoldable pub replace_last_printed : (to_scroll : ℕ) → Cmd Screen (Unit {0})
replace_last_printed to_scroll s = ok tt (record s {
  last_printed_cursor =
      if leb to_scroll s.last_printed_cursor.y
      then record s.last_printed_cursor { y = s.last_printed_cursor.y - to_scroll }
      else record { x = 0; y = 0 };
})

unfoldable pub vga_scroll :
    (direction : ScrollDirection) → (lines_count : ℕ) → Cmd Screen (Unit {0})
vga_scroll direction lines_count =
    let to_scroll = if ltb screen_line_size lines_count then screen_line_size else lines_count in
    do
      scroll_text direction to_scroll
      vga_put_cursor_at (screen_line_size - to_scroll) 0
      replace_last_printed to_scroll

unfoldable pub clear_columns : (rounds i j : ℕ) → Screen → Screen
clear_columns zero i j s = s
clear_columns (suc rounds) i j s =
    clear_columns rounds i (suc j)
      (record s { memory = assign s.memory (vga_get_framebuffer i j) (colored s.screen_scheme 32) })

unfoldable pub clear_lines : (rounds i : ℕ) → Screen → Screen
clear_lines zero i s = s
clear_lines (suc rounds) i s0 =
    let s = clear_columns screen_col_size i 0 s0 in
    clear_lines rounds (suc i) (record s { last_columns = assign s.last_columns i 0 })

unfoldable pub vga_clear_screen : Cmd Screen (Unit {0})
vga_clear_screen s = ok tt (clear_lines screen_line_size 0 s)

-- The character at the cursor, and `screen_cursor.x++`.
unfoldable pub print_at_cursor : (character : ℕ) → Cmd Screen Err
print_at_cursor character s =
    vga_print_char s.screen_cursor.y s.screen_cursor.x character
      (record s { screen_cursor = record s.screen_cursor { x = add32 s.screen_cursor.x 1 } })

-- "Manage end of line cursor position".
unfoldable pub end_of_line : Cmd Screen (Unit {0})
end_of_line s =
    if ltb (screen_col_size - 1) s.screen_cursor.x
    then (do vga_put_cursor_at (add32 s.screen_cursor.y 1) 0; keep_column) s
    else ok tt s

-- The cursor put at its column or at another one of its line, which is kept as the last one.
unfoldable pub move_in_line : (column : ℕ) → Cmd Screen (Unit {0})
move_in_line column s = (do vga_put_cursor_at s.screen_cursor.y column; keep_column) s

-- "Manage end of screen cursor position".
unfoldable pub end_of_screen : Cmd Screen (Unit {0})
end_of_screen s =
    if leb screen_line_size s.screen_cursor.y
    then vga_scroll scroll_down 1 s
    else move_in_line s.screen_cursor.x s

unfoldable pub blank_at_cursor : Cmd Screen (Unit {0})
blank_at_cursor s = (do vga_print_char s.screen_cursor.y s.screen_cursor.x 32; pure tt) s

-- The column that a backspace at the start of a line goes to, which is put in the array.
unfoldable pub clamp_column : (line : ℕ) → Cmd Screen (Unit {0})
clamp_column line s =
    if ltb line screen_line_size
    then ok tt (
        if leb screen_col_size (s.last_columns line)
        then record s { last_columns = assign s.last_columns line (screen_col_size - 1) }
        else s)
    else fault

unfoldable pub backspace_line : (line : ℕ) → Cmd Screen (Unit {0})
backspace_line line s = (do vga_put_cursor_at line (s.last_columns line); blank_at_cursor) s

unfoldable pub backspace : Cmd Screen (Unit {0})
backspace s =
    let c = s.screen_cursor in
    let last = s.last_printed_cursor in
    let back = (do move_in_line (c.x - 1); blank_at_cursor) in
    if last.y == c.y
    then (if ltb last.x c.x then back s else ok tt s)
    else if ltb last.y c.y
    then (if ltb 0 c.x then back s else (do clamp_column (c.y - 1); backspace_line (c.y - 1)) s)
    else ok tt s

unfoldable pub tab : Cmd Screen (Unit {0})
tab s =
    let x = s.screen_cursor.x in
    if ltb (add32 x 8) (screen_col_size - 1)
    then move_in_line (add32 x (8 - x % 8)) s
    else move_in_line (screen_col_size - 1) s

unfoldable pub line_feed : Cmd Screen (Unit {0})
line_feed s =
    if ltb s.screen_cursor.y (screen_line_size - 1)
    then (do vga_put_cursor_at (s.screen_cursor.y + 1) 0; keep_column) s
    else vga_scroll scroll_down 1 s

unfoldable pub is_normal : (character : ℕ) → Bool
is_normal character = ltb 31 character && ltb character 127

-- The characters backspace, tab, line feed, form feed and carriage return.
unfoldable pub process_special : (character : ℕ) → Cmd Screen (Unit {0})
process_special character =
    if character == 8
    then backspace
    else if character == 9
    then tab
    else if character == 10
    then line_feed
    else if character == 12
    then vga_clear_screen
    else if character == 13
    then move_in_line 0
    else pure tt

unfoldable pub vga_process_char : (character : ℕ) → Cmd Screen (Unit {0})
vga_process_char character =
    if is_normal character
    then (do print_at_cursor character; end_of_line; end_of_screen)
    else process_special character

unfoldable pub process_chars : (string : List ℕ) → Cmd Screen (Unit {0})
process_chars [] = pure tt
process_chars (c ∷ string) = do vga_process_char c; process_chars string

unfoldable pub keep_printed : Cmd Screen (Unit {0})
keep_printed s = ok tt (record s { last_printed_cursor = s.screen_cursor })

unfoldable pub vga_put_string : (string : List ℕ) → Cmd Screen (Unit {0})
vga_put_string string = do process_chars string; keep_printed

unfoldable pub vga_put_char : (character : ℕ) → Cmd Screen (Unit {0})
vga_put_char character = do vga_process_char character; keep_printed

-- The bytes that are there for the length given, as a list.
unfoldable pub vga_console_write_keyboard : (string : List ℕ) → Cmd Screen (Unit {0})
vga_console_write_keyboard string = process_chars string

unfoldable pub vga_restore_cursor : (buffer : Cursor) → Cmd Screen Err
vga_restore_cursor buffer s =
    if leb screen_col_size buffer.x || leb screen_line_size buffer.y
    then ok out_of_bound s
    else (do vga_put_cursor_at buffer.y buffer.x; pure no_err) s

unfoldable pub vga_set_color_scheme : (color_scheme : Colorscheme) → Cmd Screen (Unit {0})
vga_set_color_scheme color_scheme s = ok tt (record s { screen_scheme = color_scheme })
