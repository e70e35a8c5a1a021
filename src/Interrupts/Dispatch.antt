-- ===== src/Interrupts/Dispatch.antt =====
-- What a fault in a program comes to.
use os.Common.{ℕ, ◌<◌, ◌≡◌, ◌≢◌, some, List, get_elem?_lem}
use os.Machine.{Kernel, slot, cli}
use os.Console.{puts}
use os.Terminal.{on_console}
use os.Processes.{pcb_of}
use os.Processes.Halt.{returned_status, last_kernel, halt_lem}
use os.Interrupts.{exception_names, exception_name, exc_handler}

named : (vector : ℕ) → vector < 20 → (name : List ℕ) × (exception_name vector ≡ some name)
unfolding exception_name exception_names
named vector h = get_elem?_lem exception_names vector h

-- An exception, of the vectors 0 to 19, in a program that is not a base shell ends the program: the
-- parent's `execute` returns 256, the status that no `halt` of a program gives, and the parent is
-- the current process again. The conditions on the two process numbers are those of `halt`.
pub exc_handler_lem :
    (vector garbage : ℕ) (k : Kernel)
    → vector < 20
    → (pcb_of k k.process_num).is_base_shell ≡ 0
    → slot (pcb_of k k.process_num).parent_id ≢ slot k.process_num
    → (pcb_of k k.process_num).parent_id < 1022
    → k.process_num < 1000
    → k.process_num ≢ 29
    → let end = exc_handler vector garbage k in
      (returned_status end ≡ some 256)
      × ((last_kernel end).process_num ≡ (pcb_of k k.process_num).parent_id)
      × ((pcb_of (last_kernel end) k.process_num).active ≡ 0)
unfolding exc_handler
exc_handler_lem vector garbage k exception child apart small low usual =
    let (name, known) = named vector exception in
    let halted =
      halt_lem 256 garbage (on_console (puts name) (cli k)) child apart small low usual in
    rw (exc_handler, known) (halted.0, halted.1, halted.3)
