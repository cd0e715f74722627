-- ===== src/Tests/Lives.antt =====
-- The structure of a thread: its layout, its references, and the end of the thread.
use mcfgthread.Base.{◌<◌, ◌≡◌, inr, refl, true, false, some, [], arith, ℕ_discrete}
use mcfgthread.Base.Family.{assign, weigh}
use mcfgthread.Tls.{put}
use mcfgthread.DtorQueue.Laws.{to_list}
use mcfgthread.Tls.Draining.{IsDrained, has_value}
use mcfgthread.Thread.{zeroes, Threads, check_arguments, place_data, thread_p_new}
use mcfgthread.Thread.Lifetime.{Balanced, p_new_balance}
use mcfgthread.Thread.Exit.{Local, Exited, on_thread_exit, on_thread_exit_lem}
use mcfgthread.Tests.Queues.{three}
use mcfgthread.Tests.Tables.{store, store-IsStore}

placed : place_data 112 16 64 100 4096 ≡ record { data_opt = 4224; size = 228 }
unfolding place_data
placed = refl

-- A thread at the address 64 with one reference; 32 is the main thread, and 16 the backup.
abbrev threads : Threads
threads = record {
  thread = assign 64 (record zeroes { nref = 1; tid = 5; handle = 6 }) (λ _. zeroes);
  allocated = assign 64 true (λ _. false);
  main_thread = 32;
  oom_self = 16;
  oom_locked = false;
}

p_new_balance_example :
    Balanced 128
      (check_arguments 1 64 100)
      threads
      (thread_p_new 112 16 1 64 100 (some 128) (some (9, 10)) threads)
unfolding ℕ_discrete
p_new_balance_example =
    p_new_balance 112 16 1 64 100 128 (some 128) (some (9, 10)) threads refl (inr refl)

-- Three callbacks, and one value with a destructor.
abbrev local : Local
local = record { atexit_queue = three; store = store }

few : weigh (has_value local.store.keys) local.store.table.size local.store.table.element_at < 4
unfolding weigh put ℕ_discrete
few = omega arith

on_thread_exit_lem_example :
    (x : Exited) × (on_thread_exit (λ _ l. l) (λ _ s. s) 4 0 local ≡ some x)
    × (x.callbacks ≡ to_list three)
    × (to_list x.local.atexit_queue ≡ [])
    × IsDrained store x.destructors x.local.store
on_thread_exit_lem_example =
    on_thread_exit_lem (λ _ l. l) (λ _ s. s) 4 0 local (λ _ _. refl) (λ _ _. refl) store-IsStore
      (omega arith) few

-- The thread of the structure at 64 has been used with the structure at 80 before it starts.
abbrev used_before : Threads
used_before = record threads {
  thread =
      assign 80
        (record zeroes {
          nref = 1;
          tid = 5;
          handle = 8;
          atexit_queue = three;
          tls_table = store.table;
        })
        (assign 64 (record zeroes { nref = 2; tid = 5; handle = 6; proc = 1 }) (λ _. zeroes));
  allocated = assign 80 true (assign 64 true (λ _. false));
}
