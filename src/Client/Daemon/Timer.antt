-- ===== src/Client/Daemon/Timer.antt =====
-- client/src-tauri/src/daemon/timer.rs: the task that locks the vault. A second passes, or a reset
-- arrives; when the time is over, a lock is sent, and only a reset starts the time again.
use umewarden.Prelude.{
  ℕ, zero, suc, ◌+◌, ◌≡◌, refl, ap, ◌∙◌, Bool, Bool-cases, true, false, inl, inr, List, [], ◌∷◌,
  ◌++◌, replicate, leb, arith, if◌then◌else◌,
}

-- the seconds that are left to the sleep, or waiting for a reset
pub data Timer : Type 0 where
  sleeping : ℕ → Timer
  waiting : Timer

pub data Signal : Type 0 where
  second reset : Signal

module _ (timeout : ℕ) where
  -- the branch of `select!` that is taken, and whether a lock is sent
  abbrev pub step : Signal → Timer → Timer × Bool
  step second (sleeping zero) = (waiting, true)
  step second (sleeping (suc zero)) = (waiting, true)
  step second (sleeping (suc (suc n))) = (sleeping (suc n), false)
  step second waiting = (waiting, false)
  step reset (sleeping n) = (sleeping timeout, false)
  step reset waiting = (sleeping timeout, false)

  abbrev counted : Bool → ℕ → ℕ
  counted true n = suc n
  counted false n = n

  -- the locks that are sent
  unfoldable pub locks : Timer → List Signal → ℕ
  locks t [] = 0
  locks t (s ∷ rest) = let next = step s t in counted next.1 (locks next.0 rest)

  abbrev pub start : Timer
  start = sleeping timeout

  abbrev seconds : ℕ → List Signal
  seconds n = replicate n second

  locks-waiting : (n : ℕ) → locks waiting (seconds n) ≡ 0
  unfolding locks
  locks-waiting zero = refl
  locks-waiting (suc n) = locks-waiting n

  locks-sleeping :
      (m n : ℕ) → locks (sleeping (suc m)) (seconds n) ≡ (if leb (suc m) n then 1 else 0)
  unfolding locks
  locks-sleeping m zero = ground arith
  locks-sleeping zero (suc n) = ground (arith, locks-waiting n)
  locks-sleeping (suc m) (suc n) = locks-sleeping m n ∙ ground arith

  ended : Timer → List Signal → Timer
  ended t [] = t
  ended t (s ∷ rest) = ended (step s t).0 rest

  locks-append :
      (t : Timer) (before after : List Signal)
      → locks t (before ++ after) ≡ locks t before + locks (ended t before) after
  unfolding locks ended
  locks-append t [] after = omega arith
  locks-append t (s ∷ before) after = elim (Bool-cases (step s t).1) [
    | inl e ↦ rw (e, locks-append (step s t).0 before after) (omega arith)
    | inr e ↦ rw (e, locks-append (step s t).0 before after) refl
  ]

  -- from a reset
  locks-reset : (t : Timer) (after : List Signal) → locks t (reset ∷ after) ≡ locks start after
  unfolding locks
  locks-reset (sleeping n) after = refl
  locks-reset waiting after = refl

-- A timer with a timeout of at least one second sends no lock before the time after its start is over,
-- one when it is over, and no other one until a reset. After any signals, a reset starts the time
-- again: one lock follows when the time is over without a further reset, and none before.
pub locks_lem :
    (m n : ℕ) (before : List Signal)
    → (locks (suc m) (start (suc m)) (replicate n second) ≡ (if leb (suc m) n then 1 else 0))
      × (locks (suc m) (start (suc m)) (before ++ reset ∷ replicate n second)
          ≡ locks (suc m) (start (suc m)) before + (if leb (suc m) n then 1 else 0))
locks_lem m n before = (
  locks-sleeping (suc m) m n,
  locks-append (suc m) (start (suc m)) before (reset ∷ replicate n second)
      ∙ ap (λ k. locks (suc m) (start (suc m)) before + k)
          (locks-reset (suc m) (ended (suc m) (start (suc m)) before) (replicate n second)
            ∙ locks-sleeping (suc m) m n),
)
