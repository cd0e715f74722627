-- ===== src/Tests/Slots.antt =====
-- The word of a mutex at given inputs.
use mcfgthread.Base.{arith}
use mcfgthread.Mutex.{Mutex}
use mcfgthread.Mutex.Laws.{IsWord}

abbrev crowded : Mutex
crowded = record { locked = 1; sp_mask = 6; sp_nfail = 3; nsleep = 2 }

abbrev quiet : Mutex
quiet = record { locked = 1; sp_mask = 0; sp_nfail = 3; nsleep = 0 }

crowded-IsWord : IsWord crowded
crowded-IsWord = record {
  locked_bit = omega arith;
  mask_bits = omega arith;
  nfail_bits = omega arith;
  nsleep_bits = omega arith;
}

quiet-IsWord : IsWord quiet
quiet-IsWord = record {
  locked_bit = omega arith;
  mask_bits = omega arith;
  nfail_bits = omega arith;
  nsleep_bits = omega arith;
}
