-- ===== src/Terminal.antt =====
-- The three terminals: the background screens and the switch of lib.c and keyboard.c, and
-- student-distrib/terminal.c.
pub mod Switch
pub mod Line
pub mod Output
pub mod Frame
use os.Common.{
  ℕ, zero, suc, ◌+◌, ◌-◌, ◌*◌, ◌/◌, ◌%◌, ◌^◌, ◌≤◌, ◌<◌, min, ◌≡◌, refl, sym, ap, ◌∙◌, ◌≢◌, ◌↔◌, ◌⊎◌,
  inl, inr, Bool, true, false, not, ◌&&◌, ◌||◌, Option, none, some, List, [], ◌∷◌, ◌++◌, arith,
  dec_lt, ℕ_discrete, ltb, leb, ◌==◌, if◌then◌else◌, ltb→lt, lt→ltb, leb→le, ==_iff, Bool-cases,
  Option-cases, u8, u32, add32, sub32, minus_one, is_neg, slt, sign_extend8, Array, Bytes, update,
  length, get_or, set, char_at, copy, copy_lem, tests, holds_up_to, holds_at, bit_and, bit_or,
  codes,
}
use os.Strings.{strncmp, fill}
use os.Files.{rounds}
use os.Machine.{Console, Terminal, Kernel, scheduled, Reply, waits, returns}
use os.Pic.{enable_irq_of, disable_irq_of}
use os.Console.{write_cell, scroll, is_below_screen, move_to, update_cursor, puts, putc}

-- `background_putc` works on the saved cursor and the page of terminal `idx`. `on_page` runs a step
-- on them as if they were the console's.
abbrev pub on_page : ℕ → (Console → Console) → Kernel → Kernel
on_page idx f k =
    let t = k.terminal idx in
    let con = f (record (k.console) { screen_x = t.save_x; screen_y = t.save_y }) in
    record k {
      console = record (k.console) { video = con.video };
      terminal = update k.terminal idx (record t { save_x = con.screen_x; save_y = con.screen_y });
    }

unfoldable pub background_scroll : ℕ → Console → Console
background_scroll base con = record con {
  video = scroll base con.video;
  screen_x = 0;
  screen_y = 24;
}

unfoldable pub show_at : ℕ → ℕ → Console → Console
show_at base c con = record con {
  video = write_cell base (80 * con.screen_y + con.screen_x) c con.video;
}

-- the loop of a tab, with `k` rounds left
unfoldable pub background_tab : ℕ → ℕ → Console → Console
background_tab zero base con = con
background_tab (suc k) base con =
    background_tab k base (show_at base b' ' (move_to (add32 con.screen_x 1) con))

unfoldable pub background_char : ℕ → ℕ → Console → Console
background_char base c con =
    let con' =
      if is_below_screen con.screen_x con.screen_y then background_scroll base con else con in
    let shown = show_at base c con' in
    if c == 8
    then show_at base b' ' (move_to (sub32 con'.screen_x 1) con')
    else if c == 9
    then background_tab 4 base con'
    else if c == 10 || c == 13
    then record con' { screen_y = con'.screen_y + 1; screen_x = 0 }
    else move_to (add32 shown.screen_x 1) shown

unfoldable pub background_putc : ℕ → ℕ → Kernel → Kernel
background_putc c terminal_idx k =
    on_page terminal_idx (background_char (u32 ((terminal_idx + 1) * 4096)) c) k

abbrev pub on_console : (Console → Console) → Kernel → Kernel
on_console f k = record k { console = f k.console }

-- The cursor of the screen is saved with the one terminal and taken from the other.
unfoldable pub switch_video_mem : ℕ → ℕ → Kernel → Kernel
switch_video_mem previous next k =
    let saved =
      update k.terminal previous (record (k.terminal previous) {
        save_x = k.console.screen_x;
        save_y = k.console.screen_y;
      }) in
    record k {
      terminal = saved;
      console =
          update_cursor
            (record (k.console) { screen_x = (saved next).save_x; screen_y = (saved next).save_y });
    }

-- `memcpy` within the video memory, between pages that are equal or disjoint
unfoldable pub copy_page : ℕ → ℕ → Bytes → Bytes
copy_page dest src video = copy 4096 0 dest (λ c. video (src + c)) video

unfoldable pub switch_terminals : ℕ → ℕ → Kernel → Kernel
switch_terminals previous next k =
    let k1 = switch_video_mem previous next k in
    let video = copy_page ((previous + 1) * 4096) 0 k1.console.video in
    let video' = copy_page 0 ((next + 1) * 4096) video in
    record k1 { console = record (k1.console) { video = video' }; terminal_num = next }

unfoldable pub terminal_open : Kernel → ℕ × Kernel
terminal_open k =
    let reset =
      λ (t : Terminal) (a : ℕ). record t { save_x = 0; save_y = 0; enter_read = 0; active = a } in
    (
      0,
      record k {
        terminal =
            update
              (update (update k.terminal 0 (reset (k.terminal 0) 0)) 1 (reset (k.terminal 1) 0)) 2
              (reset (k.terminal 2) 1);
      },
    )

unfoldable pub terminal_close : ℕ → Kernel → ℕ × Kernel
terminal_close fd k = (minus_one, k)

-- `clear_buffer` of keyboard.c, for the terminal on the screen
unfoldable pub clear_buffer : Kernel → Kernel
clear_buffer k =
    let t = k.terminal k.terminal_num in
    record k {
      terminal =
          update k.terminal k.terminal_num
            (record t { keyboard_buffer = fill 127 0 0 t.keyboard_buffer; buffer_ct = 0 });
    }

-- the bytes at `buf` after the line of a terminal is copied there
unfoldable pub copy_line : Terminal → Bytes → ℕ → Bytes
copy_line t buf n =
    let copied =
      if slt 128 n
      then copy 127 0 0 t.keyboard_buffer buf
      else copy (rounds (sub32 n 1)) 0 0 t.keyboard_buffer buf in
    update copied t.buffer_ct b'\n'

-- the bytes at `buf` when `terminal_read` returns: the newline of an "exit" is replaced
unfoldable pub final_line : ℕ → Bytes → ℕ → Kernel → Bytes
final_line t buf n k =
    let line = copy_line (k.terminal t) buf n in
    if strncmp line (char_at (codes "exit\n")) 6 == 0
    then update line (k.terminal k.terminal_num).buffer_ct 0
    else line

-- the statements behind the copy
unfoldable pub line_taken : ℕ → Kernel → Kernel
line_taken t k =
    let cleared = clear_buffer k in
    enable_irq_of 0 (record cleared {
      terminal = update cleared.terminal t (record (cleared.terminal t) { enter_read = 0 });
    })

-- One turn of the loop of `terminal_read`: the line is taken when enter was pressed in the
-- process's terminal and the scheduled terminal is the one on the screen.
unfoldable pub terminal_read : ℕ → Bytes → ℕ → Kernel → Reply
terminal_read fd buf n k =
    let t = (k.pcbs (scheduled k)).terminal_num in
    let masked = disable_irq_of 0 (disable_irq_of 0 k) in
    if (k.terminal t).enter_read == 0 || not (k.terminal_num == k.schedule_idx)
    then waits (enable_irq_of 0 masked)
    else if is_neg n || slt 1 fd
    then returns minus_one buf masked
    else returns ((k.terminal t).buffer_ct + 1) (final_line t buf n masked) (line_taken t masked)

-- a character of a process, on the screen or on the page of its terminal
unfoldable pub emit : ℕ → Kernel → Kernel
emit c k =
    if not (k.schedule_idx == k.terminal_num)
    then background_putc c k.schedule_idx k
    else on_console (putc c) k

-- the variables of the loop of `terminal_write`, and the kernel
pub record Progress : Type 0 where
  pub line_ct : ℕ
  pub bytes_written : ℕ
  pub kernel : Kernel

unfoldable pub write_step : ℕ → Progress → Progress
write_step c s =
    let full = s.line_ct == 80 && (not (c == 0) && not (c == b'\n')) in
    let k1 = if full then emit b'\n' s.kernel else s.kernel in
    let line_ct1 = if full || c == b'\n' then 0 else s.line_ct in
    if c == 0
    then record s { line_ct = line_ct1; kernel = k1 }
    else record { line_ct = line_ct1 + 1; bytes_written = s.bytes_written + 1; kernel = emit c k1 }

-- the loop with `left` rounds left
unfoldable pub write_loop : ℕ → ℕ → Bytes → Progress → Progress
write_loop zero index buf s = s
write_loop (suc left) index buf s = write_loop left (index + 1) buf (write_step (buf index) s)

abbrev pub starts_with : Bytes → List ℕ → ℕ → Bool
starts_with buf text n = strncmp buf (char_at text) n == 0

abbrev pub with_row : ℕ → Kernel → Kernel
with_row n k = record k { console = record (k.console) { row_letter_ct = n } }

-- the statements before the loop, for the prompts that the code knows
unfoldable pub write_prepare : Bytes → Kernel → Kernel
write_prepare buf k =
    let k1 = if k.hello_flag == 1 then record k { hello_flag = 0 } else k in
    if starts_with buf (codes "Hi, what's your name? ") 23
    then with_row 22 k1
    else if starts_with buf (codes "Enter the Test Number: (0): 100, (1): 10000, (2): 100000\n") 58
    then with_row 0 k1
    else k1

-- the statements behind the loop
unfoldable pub write_finish : Bytes → Kernel → Kernel
write_finish buf k =
    let k1 = record k { hello_flag = if starts_with buf (codes "Hello, ") 8 then 1 else 0 } in
    let k2 = if starts_with buf (codes "exit") 5 then on_console (putc b'\n') k1 else k1 in
    if k2.cat_flag k2.schedule_idx == 1 && not (starts_with buf (codes "391OS> ") 9)
    then on_console (putc b'\n') k2
    else record k2 { cat_flag = update k2.cat_flag k2.schedule_idx 0 }

-- the variables when the loop starts
abbrev pub write_start : Bytes → Kernel → Progress
write_start buf k = record {
  line_ct = if k.hello_flag == 1 then 7 else 0;
  bytes_written = 0;
  kernel = write_prepare buf k;
}

-- `none` stands for the pointer NULL.
unfoldable pub terminal_write : ℕ → Option Bytes → ℕ → Kernel → ℕ × Kernel
terminal_write fd none n k = (minus_one, k)
terminal_write fd (some buf) n k =
    let s = write_loop n 0 buf (write_start buf k) in
    if is_neg n || slt 1 fd then (minus_one, k) else (s.bytes_written, write_finish buf s.kernel)
