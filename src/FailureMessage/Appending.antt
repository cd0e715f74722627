-- ===== src/FailureMessage/Appending.antt =====
-- Characters that are appended to a message, in mcfgthread/src/xglobals.c.
use mcfgthread.Base.{ℕ, suc, ◌+◌, ◌≤◌, ◌<◌, ◌≡◌, refl, ◌∙◌, List, [], ◌∷◌, length, arith}
use mcfgthread.FailureMessage.{Message, append_string, append_all, end_of_buffer}

-- A message `after` that is made from `before` by appending at most `n` characters.
pub record Appended (n : ℕ) (before after : Message) : Type 0 where
  pub grows : before.sptr ≤ after.sptr
  pub by_at_most : after.sptr ≤ before.sptr + n
  pub inside : before.sptr ≤ end_of_buffer → after.sptr ≤ end_of_buffer
  pub behind : (j : ℕ) → before.sptr + n ≤ j → after.buffer j ≡ before.buffer j
  pub in_front : (j : ℕ) → j < before.sptr → after.buffer j ≡ before.buffer j

pub append_string-Appended : (c : ℕ) (m : Message) → Appended 1 m (append_string c m)
unfolding append_string
append_string-Appended c m = record {
  grows = ground arith;
  by_at_most = ground arith;
  inside = λ h. ground arith;
  behind = λ j h. ground arith;
  in_front = λ j h. ground arith;
}

pub Appended-trans :
    (k n t : ℕ) (a b c : Message) → k + n ≡ t → Appended k a b → Appended n b c → Appended t a c
Appended-trans k n t a b c e p q = record {
  grows = omega arith;
  by_at_most = omega arith;
  inside = λ h. q.inside (p.inside h);
  behind = λ j h. q.behind j (omega (arith, e)) ∙ p.behind j (omega arith);
  in_front = λ j h. q.in_front j (omega arith) ∙ p.in_front j h;
}

pub append_all-Appended : (cs : List ℕ) (m : Message) → Appended (length cs) m (append_all cs m)
unfolding append_all
append_all-Appended [] m = record {
  grows = omega arith;
  by_at_most = omega arith;
  inside = λ h. h;
  behind = λ j h. refl;
  in_front = λ j h. refl;
}
append_all-Appended (c ∷ cs) m =
    Appended-trans 1 (length cs) (suc (length cs)) m (append_string c m) _ (omega arith)
      (append_string-Appended c m) (append_all-Appended cs (append_string c m))
