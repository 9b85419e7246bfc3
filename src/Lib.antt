-- ===== src/Lib.antt =====
-- The kernel driver of rrprofile, a profiler for AMD, Intel and PowerPC processors that grew out of OProfile.
--
-- An interrupt of a performance counter (x86/, powerpc/) logs a sample into the ring of its CPU
-- (driver/cpu_buffer.c). A delayed work drains each ring into the event buffer
-- (driver/buffer_sync.c), which the daemon reads from a device file (driver/event_buffer.c). The files
-- of a small file system start, stop and configure all this (driver/oprofile_files.c,
-- driver/oprofilefs.c), by the functions of driver/oprof.c, which call the architecture through a table
-- of operations. The development has a module for each part:
--
--   Codes         the codes of both buffers (oprofile.h, driver/cpu_buffer.h) and the error numbers
--   CpuBuffer     the ring of one CPU: `add_sample`, `log_sample`, the traces and the time stamps;
--                 Window is the ring as a queue, Append and Logging are about the writers
--   CpuBuffers    all rings: `alloc_cpu_buffers`, `free_cpu_buffers` and the delayed work
--   EventBuffer   `add_event_entry` and `event_buffer_read`; Log is about the words recorded
--   Stats         the counters of driver/oprofile_stats.c and their reset
--   BufferSync    `sync_buffer` and `oprofile_put_buff`; Loop is about the order, Transcript about
--                 the words that a ring is turned into
--   Attribution   the reader of the event buffer's format and the round trip from `log_sample` to it;
--                 the reader is no part of the driver: it follows the codes of oprofile.h
--   Oprof         setup, start, stop, adapt and shutdown (driver/oprof.c), the control files (Files, with
--                 their read handlers in Files/Read) and the daemon's session (Session, of
--                 driver/event_buffer.c); Init is the load of the module and the mount; Phase and Reach are about what any
--                 sequence of their steps leads to
--   HrTimer       the timer mode (driver/timer_int_2.6.35.c); Ticks is about its samples, Armed about
--                 the CPUs whose timers are queued
--   X86           the counter registers: saving and restoring (Save), the sampling interval (Adapt), the
--                 NMI handler's life cycle (Nmi), the P6, Athlon and Pentium 4 counters (Ppro, Athlon,
--                 P4), the walk over stack frames (Backtrace), the choice of a model
--                 (Select), and the idle routine that polls (Idle, of x86/process.c)
--   PowerPc       the counters of the POWER4, the RS64 and the 7450 (Power4, Rs64, Fsl7450, of
--                 powerpc/op_model_*.c), the callbacks for all CPUs (Common, of powerpc/common.c), and
--                 the walk over stack frames (Backtrace)
--   Bits          single bits of words, shifts and fields, for the registers of both architectures
--
-- A definition has the name of the C function. Global variables are fields of a record that the function
-- takes and returns; a struct is a record with the same fields; an int result is a number, with the
-- errors of Codes as the negative values of an int. What the C code gets from the kernel is an argument:
-- the current task, the time stamp counter, the allocators, what CPUID says. A function that runs under a
-- lock or with interrupts off is one step.
--
-- The code is modelled as it is built with RRPROFILE defined, for a 64-bit kernel of version 3.5
-- or later, with CONFIG_SMP and CONFIG_X86_LOCAL_APIC. Unsigned longs are numbers below 2 ^ 64 and
-- unsigned ints numbers below 2 ^ 32; what the code computes with them wraps by `%`. The loop of
-- `sync_buffer` is a recursion on the number of entries that `get_slots` has read, which agrees
-- with the unsigned int that counts in C while that number is below 2 ^ 32. The loop of
-- `oprofile_put_buff` is a recursion on fuel, of which it is given `max`: an index below `max`
-- comes to a stop below `max` in fewer rounds; as its index is an int, it has no result where the
-- index would overflow. `oprofile_get_tb` has as fuel the values that the upper half of the time
-- base has left, since a round that fails has seen it grow. The loops over addresses of
-- x86/op_model_p4.c have the distance to the last address as fuel, since the address grows in each
-- round. The registers' addresses of the Pentium 4 and the masks of the PowerPC's `MMCR0` are
-- arguments; theorems that rest on their values have those of the kernel's headers as a
-- hypothesis.
--
-- Not modelled: reads of a ring while its CPU writes to it (`sync_buffer` is one step), memory order,
-- the creation of the files and devices, the timers of kernels before 2.6.35, and of PowerPC the Book E
-- counters. In a sample's trace the walk is an argument, the list of the addresses that it adds.
pub mod Prelude
pub mod Codes
pub mod CpuBuffer
pub mod Stats
pub mod EventBuffer
pub mod HrTimer
pub mod BufferSync
pub mod Attribution
pub mod Bits
pub mod CpuBuffers
pub mod Oprof
pub mod X86
pub mod PowerPc
mod Tests
