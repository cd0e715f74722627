-- ===== src/Thread/Lifetime.antt =====
-- How long the structure of a thread lives: the reference counts of mcfgthread/src/thread.c.
use mcfgthread.Base.{
  ℕ, ◌-◌, ◌<◌, ◌≡◌, ◌≢◌, ◌⊎◌, inl, inr, refl, ap, ◌∙◌, Option, none, some, true, false, not, ◌||◌,
  ◌==◌, if◌then◌else◌, [], arith, ℕ_discrete,
}
use mcfgthread.Base.Family.{assign, assign-here}
use mcfgthread.Thread.{
  ThreadBase, zeroes, Threads, mfree_nonnull, free_thread, thread_drop_ref_nonnull,
  thread_attach_foreign, thread_self_slow, thread_p_new, new_with, Error, check_arguments,
  place_data,
}

-- The exit callbacks and the thread-local values of a thread are gone.
abbrev pub IsCleared : ThreadBase → Type 0
IsCleared t = (t.atexit_queue.prev ≡ []) × (t.tls_table.size ≡ 0)

abbrev pub freed : ℕ → Threads → Threads
freed thrd w =
    if thrd == w.oom_self
    then record w { thread = assign thrd zeroes w.thread; oom_locked = false }
    else mfree_nonnull thrd w

free_thread_lem :
    (thrd : ℕ) (w : Threads) → IsCleared (w.thread thrd) → free_thread thrd w ≡ some (freed thrd w)
unfolding free_thread
free_thread_lem thrd w (queue, table) = rw (free_thread, queue) (ground arith)

abbrev pub one_less : ℕ → Threads → Threads
one_less thrd w = record w {
  thread = assign thrd (record (w.thread thrd) { nref = (w.thread thrd).nref - 1 }) w.thread;
}

pub drop_ref_lem :
    (thrd : ℕ) (w : Threads)
    → 0 < (w.thread thrd).nref
    → IsCleared (w.thread thrd)
    → thread_drop_ref_nonnull thrd w
      ≡ some (
          if not ((w.thread thrd).nref == 1) || (thrd == w.main_thread)
          then one_less thrd w
          else freed thrd (one_less thrd w))
unfolding thread_drop_ref_nonnull
drop_ref_lem thrd w h (queue, table) =
    let here =
      assign-here thrd (record (w.thread thrd) { nref = (w.thread thrd).nref - 1 }) w.thread thrd
        refl in
    let last : free_thread thrd (one_less thrd w) ≡ some (freed thrd (one_less thrd w)) =
      free_thread_lem thrd (one_less thrd w)
        (ap (λ t. t.atexit_queue.prev) here ∙ queue, ap (λ t. t.tls_table.size) here ∙ table) in
    ground arith

-- A reference that is dropped to a structure that is allocated, whose exit callbacks and thread-local values
-- are gone: the structure is deallocated exactly if the reference was the last one and the structure is
-- neither the main thread's nor the backup's, and no other structure changes.
pub drop_ref_frees :
    (thrd : ℕ) (w : Threads)
    → 0 < (w.thread thrd).nref
    → IsCleared (w.thread thrd)
    → w.allocated thrd ≡ true
    → (w' : Threads) × (thread_drop_ref_nonnull thrd w ≡ some w')
      × (w'.allocated thrd
          ≡ (not ((w.thread thrd).nref == 1) || ((thrd == w.main_thread) || (thrd == w.oom_self))))
      × ((other : ℕ)
          → other ≢ thrd
          → (w'.allocated other ≡ w.allocated other) × (w'.thread other ≡ w.thread other))
drop_ref_frees thrd w h c a =
    (_, drop_ref_lem thrd w h c, ground arith, λ other apart. (ground arith, ground arith))

-- Nothing is allocated for an error, and a new thread has the references of its creator and of itself.
abbrev pub Balanced : ℕ → Option Error → Threads → (Error ⊎ ℕ) × Threads → Type 0
Balanced thrd checked w (inl e, w') = (x : ℕ) → w'.allocated x ≡ w.allocated x
Balanced thrd checked w (inr new, w') =
    (checked ≡ none) × (new ≡ thrd) × (w'.allocated thrd ≡ true) × ((w'.thread thrd).nref ≡ 2)

new_with-Balanced :
    (proc : ℕ) (data_at : ℕ → ℕ) (thrd : ℕ) (checked : Option Error) (memory : Option ℕ)
    (created : Option (ℕ × ℕ)) (w : Threads)
    → w.allocated thrd ≡ false
    → (memory ≡ none) ⊎ (memory ≡ some thrd)
    → Balanced thrd checked w (new_with proc data_at checked memory created w)
new_with-Balanced proc data_at thrd (some e) memory created w fresh m = λ x. refl
new_with-Balanced proc data_at thrd none none created w fresh m = λ x. refl
new_with-Balanced proc data_at thrd none (some new) none w fresh m = λ x. ground arith
new_with-Balanced proc data_at thrd none (some new) (some (handle, tid)) w fresh m =
    (refl, ground arith, ground arith, ground arith)

-- When the creation of a thread fails, for whatever reason, every block is allocated or not as it was
-- before, where the new block had not been allocated; and where it succeeds, the arguments were
-- accepted, the result is the new block, and it has two references.
pub p_new_balance :
    (base_size allocation_alignment proc data_alignment data_size thrd : ℕ) (memory : Option ℕ)
    (created : Option (ℕ × ℕ)) (w : Threads)
    → w.allocated thrd ≡ false
    → (memory ≡ none) ⊎ (memory ≡ some thrd)
    → Balanced thrd
        (check_arguments proc data_alignment data_size)
        w
        (thread_p_new base_size allocation_alignment proc data_alignment data_size memory created w)
unfolding thread_p_new
p_new_balance base_size allocation_alignment proc data_alignment data_size thrd memory created w
      fresh m =
    new_with-Balanced proc
      (λ thrd. (place_data base_size allocation_alignment data_alignment data_size thrd).data_opt)
      thrd (check_arguments proc data_alignment data_size) memory created w fresh m

abbrev taken_backup : ℕ → ℕ → Threads → Threads
taken_backup tid handle w = record w {
  thread = assign w.oom_self (record zeroes { nref = 1; tid = tid; handle = handle }) w.thread;
  oom_locked = true;
}

slow_backup :
    (tid handle : ℕ) (w : Threads)
    → handle ≢ 0
    → w.oom_self ≢ 0
    → w.thread w.oom_self ≡ zeroes
    → thread_self_slow 0 none tid handle w ≡ some (w.oom_self, taken_backup tid handle w)
unfolding thread_self_slow thread_attach_foreign
slow_backup tid handle w h some_oom clear = rw clear (ground arith)

-- A thread with a handle takes the backup structure when there is no memory, if there is a backup, which
-- is not the main thread's, is clear and is not in use. The backup is clear and free for the next thread
-- once its only reference is dropped, and no other structure has changed.
pub oom_roundtrip :
    (tid handle : ℕ) (w : Threads)
    → handle ≢ 0
    → w.oom_self ≢ 0
    → w.oom_self ≢ w.main_thread
    → w.oom_locked ≡ false
    → w.thread w.oom_self ≡ zeroes
    → (w1 : Threads) × (w2 : Threads) × (thread_self_slow 0 none tid handle w
        ≡ some (w.oom_self, w1))
      × (w1.oom_locked ≡ true)
      × ((w1.thread w.oom_self).tid ≡ tid)
      × (thread_drop_ref_nonnull w.oom_self w1 ≡ some w2)
      × (w2.oom_locked ≡ false)
      × ((x : ℕ) → (w2.thread x ≡ w.thread x) × (w2.allocated x ≡ w.allocated x))
oom_roundtrip tid handle w h some_oom not_main unlocked clear =
    let w1 = taken_backup tid handle w in
    let here =
      assign-here w.oom_self (record zeroes { nref = 1; tid = tid; handle = handle }) w.thread
        w.oom_self refl in
    let dropped =
      drop_ref_lem w.oom_self w1 (ground arith)
        (ap (λ t. t.atexit_queue.prev) here, ap (λ t. t.tls_table.size) here) in
    (
      w1,
      _,
      slow_backup tid handle w h some_oom clear,
      refl,
      ap (λ t. t.tid) here,
      dropped,
      ground arith,
      λ x. (
        elim (ℕ_discrete x w.oom_self) [
          | yes here ↦ ground (arith, ap w.thread here ∙ clear)
          | no apart ↦ ground arith
        ],
        ground arith,
      ),
    )
