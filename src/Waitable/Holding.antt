-- ===== src/Waitable/Holding.antt =====
-- The role of a thread towards an object: how many shared and exclusive holds it has.
use mcfgthread.Base.{ℕ}

pub record Holding : Type 0 where
  pub shares : ℕ
  pub owns : ℕ

-- A thread that holds nothing.
abbrev pub free : Holding
free = record { shares = 0; owns = 0 }
