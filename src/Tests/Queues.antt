-- ===== src/Tests/Queues.antt =====
-- Destructor queues at given inputs.
use mcfgthread.Base.{ℕ, ◌≡◌, refl, [], ◌∷◌, ◌++◌, length, some, arith}
use mcfgthread.DtorQueue.{Element, Queue, kept, run_dtors, or_here, pop}
use mcfgthread.DtorQueue.Laws.{to_list, pop_list, pop-pop_list}
use mcfgthread.DtorQueue.Running.{matched}
use mcfgthread.Cxa.{Process, cxa_finalize}
use mcfgthread.Cxa.Finalizing.{cxa_finalize_lem}

abbrev pub callback : ℕ → ℕ → Element
callback n dso = record { dtor = n; this = 0; dso = dso }

-- Three callbacks of two libraries, in two blocks.
abbrev pub three : Queue
three = record { block = callback 3 8 ∷ callback 2 9 ∷ []; prev = (callback 1 8 ∷ []) ∷ [] }

popped : (pop 8 three).1 ≡ record { block = callback 2 9 ∷ []; prev = (callback 1 8 ∷ []) ∷ [] }
unfolding pop or_here
popped = refl

pop-pop_list_example : ((pop 8 three).0, to_list (pop 8 three).1) ≡ pop_list 8 (to_list three)
pop-pop_list_example = pop-pop_list 8 three

two_match : length (matched 8 (to_list three)) ≡ 2
unfolding matched
two_match = refl

run_three :
    (run_dtors (pop 8) (λ _ q. q) 3 three)
    ≡ some (callback 3 8 ∷ callback 1 8 ∷ [], record { block = callback 2 9 ∷ []; prev = [] ∷ [] })
unfolding run_dtors pop or_here
run_three = refl

abbrev ending : Process
ending = record { thread_queue = three; exit_queue = three; quick_exit_queue = three }

cxa_finalize_lem_example :
    (p' : Process) × (cxa_finalize (λ _ p. p) 3 8 ending
      ≡ some (matched 8 (to_list three) ++ matched 8 (to_list three), p'))
    × (to_list p'.thread_queue ≡ kept 8 (to_list three))
    × (to_list p'.exit_queue ≡ kept 8 (to_list three))
    × (to_list p'.quick_exit_queue ≡ kept 8 (to_list three))
cxa_finalize_lem_example =
    cxa_finalize_lem (λ _ p. p) 3 8 ending (λ _ p. refl) (omega (arith, two_match))
      (omega (arith, two_match))
