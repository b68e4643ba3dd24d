-- ===== src/VgaText/Tests.antt =====
-- The theorems about drivers/vga_text.c at small inputs.
use awk.Base.{ℕ, ◌≡◌, ◌⊎◌, true, false, List, [], ◌∷◌, arith}
use awk.Run.{fault}
use awk.VgaText.{Screen, vga_process_char}
use awk.VgaText.Bounds.{StaysOnScreen, is_last, vga_process_char-StaysOnScreen}

-- An empty screen in white on black, with the cursor at `x` and `y`.
abbrev screen : (x y : ℕ) → Screen
screen x y = record {
  screen_scheme = record { foreground = 15; background = 0 };
  screen_cursor = record { x = x; y = y };
  last_printed_cursor = record { x = 0; y = 0 };
  last_columns = λ line. 0;
  memory = λ a. 0;
}

-- Two characters over the end of a line.
abbrev hi : List ℕ
hi = 72 ∷ 105 ∷ []

vga_process_char-StaysOnScreen_example :
    ((is_last 65 (screen 79 24) ≡ true) × (vga_process_char 65 (screen 79 24) ≡ fault))
    ⊎ ((is_last 65 (screen 79 24) ≡ false) × StaysOnScreen (vga_process_char 65 (screen 79 24)))
vga_process_char-StaysOnScreen_example =
    vga_process_char-StaysOnScreen 65 (screen 79 24) (omega arith, omega arith)
