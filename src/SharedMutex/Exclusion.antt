-- ===== src/SharedMutex/Exclusion.antt =====
-- Threads over one shared mutex: readers and writers.
use mcfgthread.Base.{ℕ, ◌+◌, ◌*◌, ◌≤◌, ◌<◌, ◌^◌, ◌≡◌, refl, Bool, true, arith, ℕ_discrete}
use mcfgthread.Base.Family.{weigh, weigh-ge, weigh-ge_two}
use mcfgthread.Waitable.Holding.{Holding, free}
use mcfgthread.Waitable.Machine.{Pc}
use mcfgthread.Waitable.System.{System, Reach}
use mcfgthread.Waitable.Ledger.{waits, pending, of_role}
use mcfgthread.Waitable.Invariant.{Inv, Reach-Inv}
use mcfgthread.SharedMutex.{SharedMutex, init, max_share, Phase, Call, Signal, ops}
use mcfgthread.SharedMutex.Laws.{reading, may_unlock, laws}

abbrev pub Threads : Type 0
Threads = System SharedMutex Phase Holding Call Signal

-- Any thread may call any locking function at any time.
abbrev pub may_lock : Holding → Call → Bool
may_lock r c = true

abbrev pub Reachable : ℕ → Threads → Type 0
Reachable n = Reach ops may_lock may_unlock n init free

-- How many shared holds, and how many exclusive ones, the thread at `p` has.
abbrev pub shares : Pc SharedMutex Phase Holding Call Signal → ℕ
shares = of_role ops reading (λ r. r.shares)

abbrev pub owns : Pc SharedMutex Phase Holding Call Signal → ℕ
owns = of_role ops reading (λ r. r.owns)

Reachable-Inv : {n : ℕ} {s : Threads} → n < 2 ^ 50 → Reachable n s → Inv ops reading may_unlock n s
Reachable-Inv {n} few r =
    Reach-Inv ops reading may_unlock n laws (omega arith) r
      (record { nshare_bits = omega arith; nsleep_bits = omega arith; awake = λ _. refl }) refl refl
      refl refl refl

-- Fewer than 2 ^ 50 threads lock and unlock one shared mutex, interleaved in any order, where only
-- a holder unlocks. Then while a thread holds the mutex in exclusive mode, no thread holds it in
-- shared mode, and no other thread holds it at all.
pub readers_or_writer :
    {n : ℕ} {s : Threads}
    → n < 2 ^ 50
    → Reachable n s
    → (i j : ℕ) → i < n
    → j < n
    → 0 < owns (s.pc i)
    → 0 < shares (s.pc j) + owns (s.pc j)
    → (i ≡ j) × (shares (s.pc j) ≡ 0)
readers_or_writer {n} {s} few r i j i_in j_in h k =
    let inv = Reachable-Inv few r in
    let w = weigh-ge owns s.pc n i i_in in
    let no_reader : shares (s.pc j) ≡ 0 =
      ground (arith, inv.shared, inv.owned, w, weigh-ge shares s.pc n j j_in) in
    (
      elim (ℕ_discrete i j) [
        | yes same ↦ same
        | no apart ↦
            absurd (ground (arith, inv.owned, weigh-ge_two owns s.pc n i j i_in j_in apart))
      ],
      no_reader,
    )

-- Fewer than 2 ^ 50 threads lock and unlock one shared mutex, interleaved in any order, where only
-- a holder unlocks. Then `__nshare` is the number of readers, of which there are at most
-- `__MCF_SHARED_MUTEX_MAX_SHARE`, or stands for the one writer; and the threads in the wait are those
-- that the word counts and those for whom a release is due.
pub holds_recorded :
    {n : ℕ} {s : Threads}
    → n < 2 ^ 50
    → Reachable n s
    → (s.word.nshare ≡ weigh shares n s.pc + 0x3FFF * weigh owns n s.pc)
      × (weigh shares n s.pc ≤ max_share)
      × (weigh (waits ops reading) n s.pc ≡ s.word.nsleep + weigh (pending ops reading) n s.pc)
holds_recorded few r =
    let inv = Reachable-Inv few r in
    (
      ground (arith, inv.shared, inv.owned),
      ground (arith, inv.shared, inv.good.nshare_bits),
      inv.counted,
    )

-- Fewer than 2 ^ 50 threads lock and unlock one shared mutex, interleaved in any order, where only
-- a holder unlocks. Then no thread is forgotten: when nobody holds the mutex, its word counts no
-- sleeping thread, so every thread in the wait has a release that is due.
pub released_when_free :
    {n : ℕ} {s : Threads}
    → n < 2 ^ 50
    → Reachable n s
    → weigh shares n s.pc ≡ 0
    → weigh owns n s.pc ≡ 0
    → (s.word ≡ init) × (weigh (waits ops reading) n s.pc ≡ weigh (pending ops reading) n s.pc)
released_when_free {s} few r a b =
    let inv = Reachable-Inv few r in
    let none_held : s.word.nshare ≡ 0 = ground (arith, inv.shared, inv.owned) in
    (
      ground (arith, none_held, inv.good.awake none_held),
      omega (arith, inv.counted, inv.good.awake none_held),
    )
