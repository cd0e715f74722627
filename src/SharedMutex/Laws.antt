-- ===== src/SharedMutex/Laws.antt =====
-- The operations of mcfgthread/src/shared_mutex.c: what the bit tricks compute, and the books.
use mcfgthread.Base.{
  ℕ, ◌+◌, ◌-◌, ◌/◌, ◌%◌, ◌≤◌, ◌<◌, ◌^◌, ◌≡◌, Bool, true, Bool-cases, ltb, ◌||◌, ◌==◌, if◌then◌else◌,
  ℤ, arith, inl, inr, dec_lt,
}
use mcfgthread.Base.Bits.{bit_and-zero, bit_and-ones18, bit_and-ones50}
use mcfgthread.Waitable.Holding.{Holding}
use mcfgthread.Waitable.Machine.{done}
use mcfgthread.Waitable.Ledger.{Reading, Laws, AttemptIsSound, LeaveIsSound, ReplyIsSound, Held}
use mcfgthread.SharedMutex.{
  SharedMutex, Call, lock_shared, lock_exclusive, Signal, unlock, ops, Phase, lock_loop, attempt,
  leave, signal, role_after, drop_share, unlock_word,
}

-- A writer leaves nothing, and a reader leaves the other readers.
pub drop_share_lem :
    (nshare : ℕ)
    → 0 < nshare
    → nshare ≤ 0x3FFF
    → drop_share nshare ≡ (if nshare == 0x3FFF then 0 else nshare - 1)
unfolding drop_share
drop_share_lem nshare h k = elim (dec_lt nshare 0x3FFF) [
  | yes reader ↦
      let e : (nshare % 2 ^ 32 + 2 ^ 32 - 0x3FFF) % 2 ^ 32 / 2 ^ 14 ≡ 0x3FFFF = omega arith in
      rw e (ground (arith, bit_and-ones18 ((nshare + 2 ^ 64 - 1) % 2 ^ 64)))
  | no writer ↦
      let e : (nshare % 2 ^ 32 + 2 ^ 32 - 0x3FFF) % 2 ^ 32 / 2 ^ 14 ≡ 0 = omega arith in
      rw e (ground (arith, bit_and-zero ((nshare + 2 ^ 64 - 1) % 2 ^ 64)))
]

-- For every locked word, `_MCF_shared_mutex_unlock_slow` takes off one reader or the writer; the last
-- holder releases all sleeping threads, and any other holder none.
pub unlock_word_lem :
    (w : SharedMutex)
    → 0 < w.nshare
    → w.nshare ≤ 0x3FFF
    → w.nsleep < 2 ^ 50
    → unlock_word w ≡ (
        if (w.nshare == 1) || (w.nshare == 0x3FFF)
        then (record { nshare = 0; nsleep = 0 }, w.nsleep)
        else (record { nshare = w.nshare - 1; nsleep = w.nsleep }, 0))
unfolding unlock_word
unlock_word_lem w h k few = elim (Bool-cases ((w.nshare == 1) || (w.nshare == 0x3FFF))) [
  | inl last ↦
      let e : drop_share w.nshare ≡ 0 = ground (arith, drop_share_lem w.nshare h k) in
      rw e (ground (arith, bit_and-ones50 w.nsleep))
  | inr others ↦
      let e : drop_share w.nshare ≡ w.nshare - 1 = ground (arith, drop_share_lem w.nshare h k) in
      let m : (w.nshare - 1 + 2 ^ 64 - 1) % 2 ^ 64 / 2 ^ 14 ≡ 0 = ground arith in
      rw e (rw m (ground (arith, bit_and-zero w.nsleep)))
]

-- The bit-fields of a word. Threads sleep only while somebody holds the mutex.
pub record IsWord (w : SharedMutex) : Type 0 where
  pub nshare_bits : w.nshare < 2 ^ 14
  pub nsleep_bits : w.nsleep < 2 ^ 50
  pub awake : w.nshare ≡ 0 → w.nsleep ≡ 0

-- 0x3FFF is a writer, and any other value counts readers.
abbrev pub readers : SharedMutex → ℕ
readers w = if w.nshare == 0x3FFF then 0 else w.nshare

abbrev pub writers : SharedMutex → ℕ
writers w = if w.nshare == 0x3FFF then 1 else 0

abbrev pub reading : Reading SharedMutex Holding
reading = record {
  Good = IsWord;
  sleepers = λ w. w.nsleep;
  limit = 2 ^ 50 - 1;
  shared_by = readers;
  owned_by = writers;
  shares = λ r. r.shares;
  owns = λ r. r.owns;
}

-- Only a thread that holds the mutex unlocks it.
abbrev pub may_unlock : Holding → Signal → Bool
may_unlock r unlock = ltb 0 (r.shares + r.owns)

attempt-IsSound :
    (c : Call) (l : Phase) (z : Bool) (r : Holding) (old : SharedMutex)
    → IsWord old
    → old.nsleep < 2 ^ 50 - 1
    → AttemptIsSound ops reading c r old (attempt c l z old)
unfolding attempt role_after
attempt-IsSound lock_shared lock_loop z r old g few = ground arith
attempt-IsSound lock_exclusive lock_loop z r old g few = ground arith

done-role :
    (c : Call) (l : Phase) (z : Bool) (r : Holding) (old : SharedMutex) (x : ℤ)
    → ops.attempt c l z old ≡ done x
    → (reading.shares (role_after c x r) ≡ reading.shares r)
      × (reading.owns (role_after c x r) ≡ reading.owns r)
unfolding attempt role_after
done-role lock_shared lock_loop z r old x q = ground arith
done-role lock_exclusive lock_loop z r old x q = ground arith

leave-IsSound :
    (c : Call) (r : Holding) (old : SharedMutex)
    → IsWord old
    → LeaveIsSound ops reading c r old (leave old)
unfolding leave role_after
leave-IsSound lock_shared r old g = ground arith
leave-IsSound lock_exclusive r old g = ground arith

signal-IsSound :
    (s : Signal) (r : Holding) (old : SharedMutex)
    → IsWord old
    → may_unlock r s ≡ true
    → Held ops reading old r
    → ReplyIsSound ops reading r old (signal s r old)
unfolding signal
signal-IsSound unlock r old g m h =
    let some_hold : 0 < old.nshare = ground arith in
    rw (unlock_word_lem old some_hold (omega (arith, g.nshare_bits)) g.nsleep_bits) (ground arith)

pub laws : Laws ops reading may_unlock
laws = record {
  attempt_is_sound = attempt-IsSound;
  done_keeps_role = done-role;
  leave_is_sound = leave-IsSound;
  resume_keeps_role = λ c r e. cc;
  signal_is_sound = signal-IsSound;
}
