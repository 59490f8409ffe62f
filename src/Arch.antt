-- ===== src/Arch.antt =====
-- src/ncarch.h: the macros (Defs), and the systems and configurations that it accepts (Platforms).
pub mod Defs
pub mod Platforms
