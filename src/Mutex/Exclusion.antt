-- ===== src/Mutex/Exclusion.antt =====
-- Threads over one mutex: who owns it.
use mcfgthread.Base.{ℕ, ◌+◌, ◌<◌, ◌^◌, ◌≡◌, refl, Bool, true, arith, ℕ_discrete}
use mcfgthread.Base.Family.{weigh, weigh-ge_two}
use mcfgthread.Waitable.Holding.{Holding, free}
use mcfgthread.Waitable.Machine.{Pc}
use mcfgthread.Waitable.System.{System, Reach}
use mcfgthread.Waitable.Ledger.{waits, pending, of_role}
use mcfgthread.Waitable.Invariant.{Inv, Reach-Inv}
use mcfgthread.Mutex.{Mutex, init, Phase, Call, Signal, ops}
use mcfgthread.Mutex.Laws.{reading, may_unlock, laws}

abbrev pub Threads : Type 0
Threads = System Mutex Phase Holding Call Signal

-- Any thread may call `_MCF_mutex_lock` at any time.
abbrev pub may_lock : Holding → Call → Bool
may_lock r c = true

abbrev pub Reachable : ℕ → Threads → Type 0
Reachable n = Reach ops may_lock may_unlock n init free

-- How many times the thread at `p` owns the mutex.
abbrev pub owns : Pc Mutex Phase Holding Call Signal → ℕ
owns = of_role ops reading (λ r. r.owns)

pub Reachable-Inv :
    {n : ℕ} {s : Threads} → n < 2 ^ 55 → Reachable n s → Inv ops reading may_unlock n s
Reachable-Inv {n} few r =
    Reach-Inv ops reading may_unlock n laws (omega arith) r (omega arith) refl refl refl refl refl

-- Fewer than 2 ^ 55 threads lock and unlock one mutex, interleaved in any order, where only an
-- owner unlocks. Then two threads never own it at the same time.
pub mutual_exclusion :
    {n : ℕ} {s : Threads}
    → n < 2 ^ 55
    → Reachable n s
    → (i j : ℕ) → i < n
    → j < n
    → 0 < owns (s.pc i)
    → 0 < owns (s.pc j)
    → i ≡ j
mutual_exclusion {n} {s} few r i j i_in j_in a b = elim (ℕ_discrete i j) [
  | yes same ↦ same
  | no apart ↦
      let inv = Reachable-Inv few r in
      absurd (
        omega (arith, weigh-ge_two owns s.pc n i j i_in j_in apart, inv.owned, inv.good.locked_bit))
]

-- Fewer than 2 ^ 55 threads lock and unlock one mutex, interleaved in any order, where only an
-- owner unlocks. Then the mutex is owned exactly as often as its `__locked` bit says, and no
-- wake-up is sent that nobody will take: the sleeping threads that the mutex counts and those for
-- whom a release is due are the threads in the wait.
pub sleepers_counted :
    {n : ℕ} {s : Threads}
    → n < 2 ^ 55
    → Reachable n s
    → (weigh owns n s.pc ≡ s.word.locked)
      × (weigh (waits ops reading) n s.pc ≡ s.word.nsleep + weigh (pending ops reading) n s.pc)
sleepers_counted few r = let inv = Reachable-Inv few r in (inv.owned, inv.counted)
