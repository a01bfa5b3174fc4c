-- ===== src/Ports.antt =====
-- include/io.h: the instructions in and out of the processor, with the machine behind the ports as a
-- state. A driver is a function of these four operations.
use lightning_os.Prelude.{ℕ}

pub record Ports (D : Type 0) : Type 0 where
  pub inb : ℕ → D → ℕ × D
  pub inw : ℕ → D → ℕ × D
  pub outb : ℕ → ℕ → D → D
  pub outw : ℕ → ℕ → D → D
