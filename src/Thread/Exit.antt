-- ===== src/Thread/Exit.antt =====
-- The end of a thread: the loops of `__MCF_gthread_on_thread_exit` in mcfgthread/src/xglobals.c. `none` is
-- for fuel that is not enough.
use mcfgthread.Base.{ℕ, ◌<◌, ◌≡◌, refl, ap, ◌∙◌, Option, none, some, List, [], ◌∷◌, length, arith}
use mcfgthread.Base.Family.{weigh}
use mcfgthread.DtorQueue.{Element, Queue, pop, run_dtors, kept}
use mcfgthread.DtorQueue.Laws.{to_list, pop-pop_list}
use mcfgthread.DtorQueue.Running.{matched, matched_all, run_dtors-calls}
use mcfgthread.Tls.{Store}
use mcfgthread.Tls.Pop.{Call, drain}
use mcfgthread.Tls.Larger.{IsStore}
use mcfgthread.Tls.Draining.{has_value, IsDrained, drain_lem}

-- What belongs to the thread: its exit callbacks, and its table with all the keys.
pub record Local : Type 0 where
  pub atexit_queue : Queue
  pub store : Store

-- `__MCF_dtor_queue_pop(&atexit_elem, self->__atexit_queue, nullptr)`
unfoldable pub pop_atexit : Local → Option Element × Local
unfolding pop
pop_atexit l = let (e, q) = pop 0 l.atexit_queue in (e, record l { atexit_queue = q })

-- The callbacks and the destructors that are called, in their order, and what is left.
pub record Exited : Type 0 where
  pub callbacks : List Element
  pub destructors : List Call
  pub local : Local

abbrev pub exited_with : List Element → Local → Option (List Call × Store) → Option Exited
exited_with callbacks l none = none
exited_with callbacks l (some (destructors, s)) =
    some
      (record { callbacks = callbacks; destructors = destructors; local = record l { store = s } })

abbrev pub then_drain :
    (Local → Option (List Call × Store)) → Option (List Element × Local) → Option Exited
then_drain go none = none
then_drain go (some (callbacks, l)) = exited_with callbacks l (go l)

-- The two loops of `__MCF_gthread_on_thread_exit`; `hint` is what is in `tls_elem` before the second.
unfoldable pub on_thread_exit :
    (Element → Local → Local) → (Call → Store → Store) → ℕ → ℕ → Local → Option Exited
unfolding pop_atexit run_dtors drain
on_thread_exit invoke_atexit invoke_dtor fuel hint l =
    then_drain (λ x. drain invoke_dtor fuel hint x.store)
      (run_dtors pop_atexit invoke_atexit fuel l)

kept_none : (l : List Element) → kept 0 l ≡ []
unfolding kept
kept_none [] = refl
kept_none (e ∷ l) = kept_none l

-- Where the table of the thread is well formed and its keys count its references, neither callbacks nor
-- destructors change what belongs to the thread, and there is fuel for one step more than there are
-- callbacks and for one more than there are values, the exit of a thread ends. It has called all its exit
-- callbacks, the newest first, and none is left; after them, it has called the destructors once for
-- every value that has one and is not of a deleted key, and no null destructor; and the table is empty
-- and has given back its references.
pub on_thread_exit_lem :
    (invoke_atexit : Element → Local → Local) (invoke_dtor : Call → Store → Store) (fuel hint : ℕ)
    (l : Local)
    → ((e : Element) (x : Local) → invoke_atexit e x ≡ x)
    → ((c : Call) (s : Store) → invoke_dtor c s ≡ s)
    → IsStore l.store
    → length (to_list l.atexit_queue) < fuel
    → weigh (has_value l.store.keys) l.store.table.size l.store.table.element_at < fuel
    → (x : Exited) × (on_thread_exit invoke_atexit invoke_dtor fuel hint l ≡ some x)
      × (x.callbacks ≡ to_list l.atexit_queue)
      × (to_list x.local.atexit_queue ≡ [])
      × IsDrained l.store x.destructors x.local.store
unfolding on_thread_exit pop_atexit
on_thread_exit_lem invoke_atexit invoke_dtor fuel hint l quiet silent g few light =
    let all = matched_all (to_list l.atexit_queue) in
    let (l1, e, queue, store) =
      run_dtors-calls (λ x. to_list x.atexit_queue) (λ x. x.store) 0 pop_atexit invoke_atexit quiet
        (λ p. pop-pop_list 0 p.atexit_queue) (λ p. refl) fuel l
        (omega (arith, few, ap length all)) in
    let (calls, s', f, d) = drain_lem invoke_dtor silent fuel hint l.store g light in
    (
      record {
        callbacks = matched 0 (to_list l.atexit_queue);
        destructors = calls;
        local = record l1 { store = s' };
      },
      ap (then_drain (λ x. drain invoke_dtor fuel hint x.store)) e
          ∙ ap (exited_with (matched 0 (to_list l.atexit_queue)) l1)
              (ap (drain invoke_dtor fuel hint) store ∙ f),
      all,
      queue ∙ kept_none (to_list l.atexit_queue),
      d,
    )
