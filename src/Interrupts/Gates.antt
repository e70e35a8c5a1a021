-- ===== src/Interrupts/Gates.antt =====
-- The table that the processor looks up.
use os.Common.{ℕ, ◌+◌, ◌*◌, ◌/◌, ◌%◌, ◌^◌, Bool, ◌&&◌, ◌||◌, ltb, leb, ◌==◌, u32}
use os.Interrupts.{Gate}

-- a gate with the address of its handler
abbrev pointed : ℕ → Gate → Gate
pointed handler g = record g {
  offset_31_16 = u32 handler / 2 ^ 16;
  offset_15_00 = handler % 2 ^ 16;
}

-- the vectors that have a handler: exceptions, the lines of the two controllers, the system call
abbrev pub is_handled : ℕ → Bool
is_handled v = ltb v 20 || ((leb 32 v && ltb v 48) || v == 0x80)

-- the address that the processor puts together from a gate
abbrev pub target : Gate → ℕ
target g = g.offset_31_16 * 2 ^ 16 + g.offset_15_00
