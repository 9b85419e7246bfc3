-- ===== src/Tests.antt =====
-- Concrete runs of the modelled code, and instances of the theorems at concrete inputs.
mod Data
mod Buffers
mod Driver
mod X86
mod Nmi
mod Reach
mod Timers
mod Athlon
mod P4
mod PowerPc
mod Files
