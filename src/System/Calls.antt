-- ===== src/System/Calls.antt =====
-- The system calls keep the kernel sound.
use os.Common.{
  ℕ, ◌^◌, ◌≤◌, ◌<◌, true, false, not, ◌||◌, Option, none, some, List, arith, ◌==◌, minus_one,
  is_neg, slt, Array, Bytes, update,
}
use os.Machine.{
  FileOps, Terminal, no_fop, stdin_fop, stdout_fop, rtc_fop, directory_fop, file_fop, Kernel, slot,
  descriptors, scheduled, cli, Reply, waits, returns,
}
use os.Files.{load32, read_dentry_by_name}
use os.Pic.{enable_irq_of, disable_irq_of}
use os.Pic.Masks.{irq_masks}
use os.Descriptors.{
  blank, file_open, directory_open, file_read, directory_read, file_write, directory_write,
}
use os.Rtc.{rtc_read, rtc_write, rtc_open, is_rate}
use os.Terminal.{terminal_read, line_taken, clear_buffer}
use os.Syscalls.{
  read_of, write_of, finish_read, enter_read_call, read, write, open_of, open_file, getargs, is_bad,
  invalid_terminal_read, invalid_terminal_write,
}
use os.Syscalls.Dispatch.{after}
use os.Common.{by_branch}
use os.System.Frame.{Keeps, flag_set, redescribed, terminal_write-Keeps}
use os.System.{IsSound}
use os.System.Entries.{Keeps-IsSound}

-- the kernel with other interrupt hardware, whose masks are bytes
remasked :
    (k : Kernel) (irq : ℕ)
    → irq < 16
    → IsSound k
    → IsSound (enable_irq_of irq k) × IsSound (disable_irq_of irq k)
remasked k irq h s =
    let v = irq_masks k.hardware irq 0 s.masks h (omega arith) in
    (
      record {
        lines = s.lines;
        shown = s.shown;
        turn = s.turn;
        all_run = s.all_run;
        settled = s.settled;
        masks = v.2;
        clock = s.clock;
        rates = s.rates;
      },
      record {
        lines = s.lines;
        shown = s.shown;
        turn = s.turn;
        all_run = s.all_run;
        settled = s.settled;
        masks = v.3;
        clock = s.clock;
        rates = s.rates;
      },
    )

masked : (k : Kernel) → IsSound k → IsSound (disable_irq_of 0 k)
masked k s = (remasked k 0 (omega arith) s).1

unmasked : (k : Kernel) → IsSound k → IsSound (enable_irq_of 0 k)
unmasked k s = (remasked k 0 (omega arith) s).0

relined :
    (k : Kernel) (terminal : Array Terminal)
    → ((t : ℕ) → (terminal t).buffer_ct ≤ 127)
    → IsSound k
    → IsSound (record k { terminal = terminal })
relined k terminal bound s = record {
  lines = bound;
  shown = s.shown;
  turn = s.turn;
  all_run = s.all_run;
  settled = s.settled;
  masks = s.masks;
  clock = s.clock;
  rates = s.rates;
}

line_taken-IsSound : (t : ℕ) (k : Kernel) → IsSound k → IsSound (line_taken t k)
unfolding line_taken clear_buffer
line_taken-IsSound t k s =
    let cleared = (clear_buffer k).terminal in
    let taken = update cleared t (record (cleared t) { enter_read = 0 }) in
    unmasked (record k { terminal = taken }) (relined k taken (λ j. ground (arith, s.lines j)) s)

terminal_read-IsSound :
    (fd n : ℕ) (buf : Bytes) (k : Kernel) → IsSound k → IsSound (after (terminal_read fd buf n k))
unfolding terminal_read
terminal_read-IsSound fd n buf k s =
    let P = λ (r : Reply). IsSound (after r) in
    let t = (k.pcbs (scheduled k)).terminal_num in
    let off = masked _ (masked k s) in
    by_branch P ((k.terminal t).enter_read == 0 || not (k.terminal_num == k.schedule_idx))
      (unmasked _ off) (by_branch P (is_neg n || slt 1 fd) off (line_taken-IsSound t _ off))

rtc_read-IsSound :
    (fd n : ℕ) (buf : Bytes) (k : Kernel) → IsSound k → IsSound (after (rtc_read fd buf n k))
unfolding rtc_read
rtc_read-IsSound fd n buf k s =
    by_branch (λ (r : Reply). IsSound (after r)) (k.rtc.interrupt_flag k.schedule_idx == 1)
      (Keeps-IsSound (flag_set k true) s)
      (record {
        lines = s.lines;
        shown = s.shown;
        turn = s.turn;
        all_run = s.all_run;
        settled = s.settled;
        masks = record { master = s.masks.master; slave = s.masks.slave };
        clock = s.clock;
        rates = s.rates;
      })

file_read-Keeps : (fd n : ℕ) (buf : Bytes) (k : Kernel) → Keeps k (after (file_read fd buf n k))
unfolding file_read
file_read-Keeps fd n buf k = record {
  lines = λ t. ground arith;
  shown = ground arith;
  turn = ground arith;
  all_run = ground arith;
  master = ground arith;
  slave = ground arith;
  rtc = ground arith;
}

directory_read-Keeps :
    (fd n : ℕ) (buf : Bytes) (k : Kernel) → Keeps k (after (directory_read fd buf n k))
unfolding directory_read
directory_read-Keeps fd n buf k = record {
  lines = λ t. ground arith;
  shown = ground arith;
  turn = ground arith;
  all_run = ground arith;
  master = ground arith;
  slave = ground arith;
  rtc = ground arith;
}

read_of-IsSound :
    (ops : FileOps) (fd n : ℕ) (buf : Bytes) (k : Kernel)
    → IsSound k
    → IsSound (after (read_of ops fd buf n k))
unfolding read_of invalid_terminal_read
read_of-IsSound no_fop fd n buf k s = s
read_of-IsSound stdin_fop fd n buf k s = terminal_read-IsSound fd n buf k s
read_of-IsSound stdout_fop fd n buf k s = s
read_of-IsSound rtc_fop fd n buf k s = rtc_read-IsSound fd n buf k s
read_of-IsSound directory_fop fd n buf k s = Keeps-IsSound (directory_read-Keeps fd n buf k) s
read_of-IsSound file_fop fd n buf k s = Keeps-IsSound (file_read-Keeps fd n buf k) s

finish_read-IsSound : (n : ℕ) (r : Reply) → IsSound (after r) → IsSound (after (finish_read n r))
unfolding finish_read
finish_read-IsSound n (waits k) s = s
finish_read-IsSound n (returns r buf k) s =
    let on = Keeps-IsSound (flag_set k true) s in
    let P = λ (r : Reply). IsSound (after r) in
    by_branch P (r == 0) on (by_branch P (r == minus_one) on on)

enter_read_call-IsSound : (fd : ℕ) (k : Kernel) → IsSound k → IsSound (enter_read_call fd k)
unfolding enter_read_call
enter_read_call-IsSound fd k s =
    let off = masked (cli k) (Keeps-IsSound (flag_set k false) s) in
    Keeps-IsSound (flag_set _ false) (by_branch IsSound (fd == 0) off (unmasked _ off))

pub read-IsSound :
    (fd n : ℕ) (buf : Option Bytes) (k : Kernel) → IsSound k → IsSound (after (read fd buf n k))
unfolding read
read-IsSound fd n none k s =
    Keeps-IsSound (flag_set (enter_read_call fd k) true) (enter_read_call-IsSound fd k s)
read-IsSound fd n (some buf) k s =
    let k1 = enter_read_call fd k in
    let s1 = enter_read_call-IsSound fd k s in
    let ops = (descriptors k1 (scheduled k1) fd).operations in
    by_branch (λ (r : Reply). IsSound (after r)) (is_bad fd n (descriptors k1 (scheduled k1)))
      (Keeps-IsSound (flag_set k1 true) s1)
      (finish_read-IsSound n (read_of ops fd buf n k1) (read_of-IsSound ops fd n buf k1 s1))

-- `write` of a rate: only a rate that can be divided by is kept.
rtc_write-IsSound :
    (fd n : ℕ) (buf : Bytes) (k : Kernel)
    → ((i : ℕ) → buf i < 256)
    → IsSound k
    → IsSound (rtc_write fd buf n k).1
unfolding rtc_write is_rate
rtc_write-IsSound fd n buf k bytes s =
    let word : load32 buf 0 < 2 ^ 32 = omega (arith, bytes 0, bytes 1, bytes 2, bytes 3) in
    record {
      lines = λ t. ground (arith, s.lines t);
      shown = ground (arith, s.shown);
      turn = ground (arith, s.turn);
      all_run = ground (arith, s.all_run);
      settled = ground (arith, s.settled);
      masks = record {
        master = ground (arith, s.masks.master);
        slave = ground (arith, s.masks.slave);
      };
      clock = ground (arith, s.clock);
      rates = λ t h. let r = s.rates t h in (ground (arith, r.0), ground (arith, r.1));
    }

write_of-IsSound :
    (ops : FileOps) (fd n : ℕ) (buf : Bytes) (k : Kernel)
    → ((i : ℕ) → buf i < 256)
    → IsSound k
    → IsSound (write_of ops fd buf n k).1
unfolding write_of invalid_terminal_write file_write directory_write
write_of-IsSound no_fop fd n buf k bytes s = s
write_of-IsSound stdin_fop fd n buf k bytes s = s
write_of-IsSound stdout_fop fd n buf k bytes s = Keeps-IsSound (terminal_write-Keeps fd n buf k) s
write_of-IsSound rtc_fop fd n buf k bytes s = rtc_write-IsSound fd n buf k bytes s
write_of-IsSound directory_fop fd n buf k bytes s = s
write_of-IsSound file_fop fd n buf k bytes s = s

pub write-IsSound :
    (fd n : ℕ) (buf : Bytes) (k : Kernel)
    → ((i : ℕ) → buf i < 256)
    → IsSound k
    → IsSound (write fd (some buf) n k).1
unfolding write
write-IsSound fd n buf k bytes s =
    let P = λ (r : ℕ × Kernel). IsSound r.1 in
    let fds = descriptors k (scheduled k) in
    let done = write_of (fds fd).operations fd buf n (cli k) in
    let off = Keeps-IsSound (flag_set k false) s in
    let on =
      Keeps-IsSound (flag_set done.1 true)
        (write_of-IsSound (fds fd).operations fd n buf (cli k) bytes off) in
    by_branch P (is_bad fd n fds) (Keeps-IsSound (flag_set k true) s)
      (by_branch P (done.0 == minus_one) on on)

rtc_open-IsSound : (filename : List ℕ) (k : Kernel) → IsSound k → IsSound (rtc_open filename k).1
unfolding rtc_open
rtc_open-IsSound filename k s = record {
  lines = s.lines;
  shown = s.shown;
  turn = s.turn;
  all_run = s.all_run;
  settled = s.settled;
  masks = record { master = s.masks.master; slave = s.masks.slave };
  clock = s.clock;
  rates = λ t h. let r = s.rates t h in (ground (arith, r.0), ground (arith, r.1));
}

open_of-IsSound :
    (file_type : ℕ) (filename : List ℕ) (garbage : ℕ) (k : Kernel)
    → IsSound k
    → IsSound (open_of file_type filename garbage k).1
unfolding open_of file_open directory_open
open_of-IsSound file_type filename garbage k s =
    let P = λ (r : ℕ × Kernel). IsSound r.1 in
    by_branch P (file_type == 0) (rtc_open-IsSound filename k s) (
      by_branch P (file_type == 1) (Keeps-IsSound (redescribed k (slot k.process_num) _) s)
        (by_branch P (file_type == 2) (Keeps-IsSound (redescribed k (slot k.process_num) _) s) s))

pub open_file-IsSound :
    (filename : Option (List ℕ)) (garbage : ℕ) (k : Kernel)
    → IsSound k
    → IsSound (open_file filename garbage k).1
unfolding open_file
open_file-IsSound none garbage k s = Keeps-IsSound (flag_set k true) s
open_file-IsSound (some filename) garbage k s =
    let entry = read_dentry_by_name k.fs filename blank in
    let off = Keeps-IsSound (flag_set k false) s in
    by_branch (λ (r : ℕ × Kernel). IsSound r.1) (entry.0 == minus_one)
      (Keeps-IsSound (flag_set k true) s)
      (Keeps-IsSound (flag_set _ true)
        (open_of-IsSound entry.1.file_type filename garbage (cli k) off))

getargs-Keeps : (buf : Bytes) (nbytes : ℕ) (k : Kernel) → Keeps k (getargs buf nbytes k).2
unfolding getargs
getargs-Keeps buf nbytes k = record {
  lines = λ t. ground arith;
  shown = ground arith;
  turn = ground arith;
  all_run = ground arith;
  master = ground arith;
  slave = ground arith;
  rtc = ground arith;
}

pub getargs-IsSound :
    (buf : Bytes) (nbytes : ℕ) (k : Kernel) → IsSound k → IsSound (getargs buf nbytes k).2
getargs-IsSound buf nbytes k s = Keeps-IsSound (getargs-Keeps buf nbytes k) s
