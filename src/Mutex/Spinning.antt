-- ===== src/Mutex/Spinning.antt =====
-- The spinning slots and the spin bytes of mcfgthread/src/mutex.c.
use Prim.Native.Nat.{bit_and, bit_or}
use mcfgthread.Base.{
  ℕ, ◌+◌, ◌-◌, ◌/◌, ◌%◌, ◌<◌, ◌^◌, ◌≡◌, ◌≢◌, refl, Bool, true, arith, ◌==◌, ltb, ◌||◌, ◌&&◌, some,
}
use mcfgthread.Base.Bits.{passes_below, passes}
use mcfgthread.Mutex.{
  Mutex, bit_scan_forward, spin_byte_index, free_slot, take_slot, unlock_word, notify, table_size,
}
use mcfgthread.Mutex.Laws.{IsWord}

-- The number of the lowest slot in a mask.
abbrev pub lowest : ℕ → ℕ
lowest mask = bit_scan_forward 32 mask

slot_test : ℕ → Bool
slot_test m =
    let k = lowest (free_slot m) in
    ltb k 4
    && (free_slot m == 2 ^ k)
    && (m / 2 ^ k % 2 == 0)
    && (bit_or m (free_slot m) % 16 == m + 2 ^ k)

slot_table : passes_below 15 slot_test ≡ true
unfolding passes_below slot_test free_slot bit_scan_forward
slot_table = refl

-- While the mask has room, the slot that a spinning thread takes is one of the four, nobody has
-- it, and the mutex records it.
pub take_slot_lem :
    (w : Mutex)
    → w.sp_mask < 15
    → let k = lowest (free_slot w.sp_mask) in
      (k < 4)
      × (free_slot w.sp_mask ≡ 2 ^ k)
      × (w.sp_mask / 2 ^ k % 2 ≡ 0)
      × ((take_slot w).sp_mask ≡ w.sp_mask + 2 ^ k)
unfolding take_slot slot_test
take_slot_lem w h = let t = passes 15 slot_test slot_table w.sp_mask h in ground arith

clear_test : ℕ → Bool
clear_test m =
    let k = lowest m in
    (m == 0)
    || (ltb k 4
        && (m / 2 ^ k % 2 == 1)
        && (lowest (2 ^ k) == k)
        && (bit_and m ((m + 2 ^ 32 - 1) % 2 ^ 32) % 16 == m - 2 ^ k))

clear_table : passes_below 16 clear_test ≡ true
unfolding passes_below clear_test bit_scan_forward
clear_table = refl

-- When a mutex with a spinning thread is unlocked, the lowest slot in the mask is given back, and
-- the spin byte that is set is the one at which the thread in that slot looks.
pub unlock-notify :
    (mtx : ℕ) (w : Mutex)
    → IsWord w
    → w.sp_mask ≢ 0
    → let k = lowest w.sp_mask in
      (k < 4)
      × (w.sp_mask / 2 ^ k % 2 ≡ 1)
      × ((unlock_word w).0.sp_mask ≡ w.sp_mask - 2 ^ k)
      × (notify mtx w ≡ some (spin_byte_index mtx (2 ^ k)))
unfolding clear_test unlock_word notify spin_byte_index
unlock-notify mtx w g h =
    let t = passes 16 clear_test clear_table w.sp_mask g.mask_bits in
    let k = lowest w.sp_mask in
    let e : lowest (2 ^ k) ≡ k = ground arith in
    (ground arith, ground arith, ground arith, ground arith)

scan_test : ℕ → Bool
scan_test k = lowest (2 ^ k) == k

scan_table : passes_below 4 scan_test ≡ true
unfolding passes_below scan_test bit_scan_forward
scan_table = refl

scan_power : (k : ℕ) → k < 4 → lowest (2 ^ k) ≡ k
unfolding scan_test
scan_power k h = let t = passes 4 scan_test scan_table k h in ground arith

-- Every spin byte lies in the table, and two slots of one mutex have two bytes.
pub spin_bytes_apart :
    (mtx j k : ℕ)
    → j < 4
    → k < 4
    → j ≢ k
    → (spin_byte_index mtx (2 ^ j) < table_size)
      × (spin_byte_index mtx (2 ^ j) ≢ spin_byte_index mtx (2 ^ k))
unfolding spin_byte_index
spin_bytes_apart mtx j k h i d = rw (scan_power j h, scan_power k i) (omega arith, omega arith)
