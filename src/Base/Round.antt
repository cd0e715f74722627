-- ===== src/Base/Round.antt =====
-- The first index at which a test holds, in a range or once round a circular array.
use Prim.Native.Nat.{ℕ, zero, suc, ◌+◌, ◌-◌, ◌≤◌, ◌<◌}
use mathlib.Core.Path.{◌≡◌, refl}
use mathlib.Core.Logic.{inl, inr}
use mathlib.Core.Bool.{Bool, true, false}
use mathlib.Core.Option.{Option, none, some}
use native.Mathlib.Decide.{dec_lt, ℕ_discrete}
use native.Mathlib.Omega.{arith}
use mcfgthread.Base.Tests.{if◌then◌else◌, Option-cases}

abbrev pub or_else {ℓ} : {A : Type ℓ} → Option A → Option A → Option A
or_else (some x) o = some x
or_else none o = o

-- `for(cur = ...; cur != cur + left; cur ++) if(test(cur)) return cur;`
unfoldable pub first_from : (ℕ → Bool) → ℕ → ℕ → Option ℕ
first_from test zero cur = none
first_from test (suc left) cur =
    let next = first_from test left (cur + 1) in if test cur then some cur else next

-- From `origin` to the end, and then from the start to `origin`.
unfoldable pub first_round : (ℕ → Bool) → ℕ → ℕ → Option ℕ
unfolding first_from
first_round test size origin =
    or_else (first_from test (size - origin) origin) (first_from test origin 0)

first_from-some :
    (test : ℕ → Bool) (left cur i : ℕ)
    → first_from test left cur ≡ some i
    → (cur ≤ i) × (i < cur + left) × (test i ≡ true)
unfolding first_from
first_from-some test zero cur i e = absurd (ground arith)
first_from-some test (suc left) cur i e = ground (arith, first_from-some test left (cur + 1) i)

first_from-none :
    (test : ℕ → Bool) (left cur i : ℕ)
    → first_from test left cur ≡ none
    → cur ≤ i
    → i < cur + left
    → test i ≡ false
unfolding first_from
first_from-none test zero cur i e le lt = absurd (omega arith)
first_from-none test (suc left) cur i e le lt = elim (ℕ_discrete cur i) [
  | yes here ↦ ground arith
  | no later ↦ ground (arith, first_from-none test left (cur + 1) i)
]

-- A test that holds at fewer places finds the same, if it holds there.
first_from-fewer :
    (test fewer : ℕ → Bool) (left cur i : ℕ)
    → ((j : ℕ) → fewer j ≡ true → test j ≡ true)
    → first_from test left cur ≡ some i
    → fewer i ≡ true
    → first_from fewer left cur ≡ some i
unfolding first_from
first_from-fewer test fewer zero cur i sub e h = absurd (ground arith)
first_from-fewer test fewer (suc left) cur i sub e h =
    ground (arith, sub cur, first_from-fewer test fewer left (cur + 1) i sub)

first_from-fewer_none :
    (test fewer : ℕ → Bool) (left cur : ℕ)
    → ((j : ℕ) → fewer j ≡ true → test j ≡ true)
    → first_from test left cur ≡ none
    → first_from fewer left cur ≡ none
unfolding first_from
first_from-fewer_none test fewer zero cur sub e = refl
first_from-fewer_none test fewer (suc left) cur sub e =
    ground (arith, sub cur, first_from-fewer_none test fewer left (cur + 1) sub)

pub first_round-some :
    (test : ℕ → Bool) (size origin i : ℕ)
    → origin ≤ size
    → first_round test size origin ≡ some i
    → (i < size) × (test i ≡ true)
unfolding first_round
first_round-some test size origin i le e =
    elim (Option-cases (first_from test (size - origin) origin)) [
      | inl before ↦ let h = first_from-some test origin 0 i in ground arith
      | inr (j, f) ↦ let h = first_from-some test (size - origin) origin j f in ground arith
    ]

pub first_round-none :
    (test : ℕ → Bool) (size origin i : ℕ)
    → first_round test size origin ≡ none
    → i < size
    → test i ≡ false
unfolding first_round
first_round-none test size origin i e lt =
    elim (Option-cases (first_from test (size - origin) origin)) [
      | inl before ↦ elim (dec_lt i origin) [
        | yes low ↦ first_from-none test origin 0 i (ground arith) (omega arith) (omega arith)
        | no high ↦ first_from-none test (size - origin) origin i before (omega arith) (omega arith)
      ]
      | inr (j, f) ↦ absurd (ground arith)
    ]

pub first_round-fewer :
    (test fewer : ℕ → Bool) (size origin i : ℕ)
    → ((j : ℕ) → fewer j ≡ true → test j ≡ true)
    → first_round test size origin ≡ some i
    → fewer i ≡ true
    → first_round fewer size origin ≡ some i
unfolding first_round
first_round-fewer test fewer size origin i sub e h =
    elim (Option-cases (first_from test (size - origin) origin)) [
      | inl before ↦ ground (
        arith,
        first_from-fewer_none test fewer (size - origin) origin sub before,
        first_from-fewer test fewer origin 0 i sub,
      )
      | inr (j, f) ↦ ground (arith, first_from-fewer test fewer (size - origin) origin i sub)
    ]

first_from-here :
    (test : ℕ → Bool) (left cur : ℕ)
    → 0 < left
    → test cur ≡ true
    → first_from test left cur ≡ some cur
unfolding first_from
first_from-here test zero cur h e = absurd (omega arith)
first_from-here test (suc left) cur h e = rw e refl

pub first_round-here :
    (test : ℕ → Bool) (size origin : ℕ)
    → origin < size
    → test origin ≡ true
    → first_round test size origin ≡ some origin
unfolding first_round
first_round-here test size origin lt e =
    rw (first_from-here test (size - origin) origin (omega arith) e) refl
