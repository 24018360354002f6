-- ===== src/Sync/Scheduler.antt =====
-- src/sync/orderSyncEngine.ts: `startScheduler`. A tick runs up to its first `await` at once and then
-- goes on whenever what it waits for is there, so ticks that started may be in progress together
-- with new timer events: the steps below come in any order. `in_progress` and `started` count the
-- ticks that passed the test and have not reached `finally`, and all that passed it.
use arkain.Prelude.{
  ℕ, suc, ◌≡◌, refl, ap, ◌∙◌, ◌⊎◌, Bool, true, false, ◌||◌, if◌then◌else◌, arith, Bool-cases, inl,
  inr,
}

pub record Scheduler : Type 0 where
  pub stopped : Bool
  pub running : Bool
  pub in_progress : ℕ
  pub started : ℕ

abbrev pub start_scheduler : Scheduler
start_scheduler = record { stopped = false; running = false; in_progress = 0; started = 0 }

-- the timer calls `tick`
unfoldable pub tick : Scheduler → Scheduler
tick s =
    if s.stopped || s.running
    then s
    else record s { running = true; in_progress = suc s.in_progress; started = suc s.started }

-- a tick in progress reaches `finally`
unfoldable pub settle : Scheduler → ℕ → Scheduler
settle s left = record s { running = false; in_progress = left }

unfoldable pub stop : Scheduler → Scheduler
stop s = record s { stopped = true }

pub data Step : Scheduler → Scheduler → Type 0 where
  ticks : (s : Scheduler) → Step s (tick s)
  settles : (s : Scheduler) (left : ℕ) → s.in_progress ≡ suc left → Step s (settle s left)
  stops : (s : Scheduler) → Step s (stop s)

pub data Steps : Scheduler → Scheduler → Type 0 where
  done : (s : Scheduler) → Steps s s
  further : (a b c : Scheduler) → Step a b → Steps b c → Steps a c

-- The flag is up exactly while one tick is in progress.
abbrev pub Exclusive : Scheduler → Type 0
Exclusive s =
    ((s.running ≡ true) × (s.in_progress ≡ 1)) ⊎ ((s.running ≡ false) × (s.in_progress ≡ 0))

tick-idle :
    (s : Scheduler)
    → s.stopped ≡ false
    → s.running ≡ false
    → tick s ≡ record s { running = true; in_progress = suc s.in_progress; started = suc s.started }
unfolding tick
tick-idle s p q = rw (p, q) refl

tick-busy : (s : Scheduler) → s.running ≡ true → tick s ≡ s
unfolding tick
tick-busy s p = elim (Bool-cases s.stopped) [ inl q ↦ rw (p, q) refl | inr q ↦ rw (p, q) refl ]

tick-stopped : (s : Scheduler) → s.stopped ≡ true → tick s ≡ s
unfolding tick
tick-stopped s p = rw p refl

tick-Exclusive : (s : Scheduler) → Exclusive s → Exclusive (tick s)
tick-Exclusive s (inl (up, one)) = rw (tick-busy s up) (inl (up, one))
tick-Exclusive s (inr (down, zero_left)) = elim (Bool-cases s.stopped) [
  | inl q ↦ rw (tick-stopped s q) (inr (down, zero_left))
  | inr q ↦ rw (tick-idle s q down) (inl (refl, ap suc zero_left))
]

Step-Exclusive : (a b : Scheduler) → Step a b → Exclusive a → Exclusive b
unfolding settle stop
Step-Exclusive a b (ticks s) h = tick-Exclusive s h
Step-Exclusive a b (settles s left e) (inl (up, one)) = inr (refl, omega (arith, e, one))
Step-Exclusive a b (settles s left e) (inr (down, none_left)) = absurd (omega (arith, e, none_left))
Step-Exclusive a b (stops s) h = h

Steps-keep : (a b : Scheduler) → Steps a b → Exclusive a → Exclusive b
Steps-keep a b (done s) h = h
Steps-keep a c (further _ b _ step steps) h = Steps-keep b c steps (Step-Exclusive a b step h)

-- Ticks never overlap: in whatever order the timer fires, ticks settle and `stop` is called, at most
-- one tick is in progress, and the flag `running` is up exactly while one is.
pub Steps-Exclusive : (s : Scheduler) → Steps start_scheduler s → Exclusive s
Steps-Exclusive s steps = Steps-keep start_scheduler s steps (inr (refl, refl))

Step-stopped :
    (a b : Scheduler) → Step a b → a.stopped ≡ true → (b.stopped ≡ true) × (b.started ≡ a.started)
unfolding settle stop
Step-stopped a b (ticks s) h = rw (tick-stopped s h) (h, refl)
Step-stopped a b (settles s left e) h = (h, refl)
Step-stopped a b (stops s) h = (refl, refl)

-- After `stop` no tick starts, whatever steps follow.
pub Steps-stopped :
    (a b : Scheduler) → Steps a b → a.stopped ≡ true → (b.stopped ≡ true) × (b.started ≡ a.started)
Steps-stopped a b (done s) h = (h, refl)
Steps-stopped a c (further _ b _ step steps) h =
    let (still, same) = Step-stopped a b step h in
    let (at_last, same_since) = Steps-stopped b c steps still in (at_last, same_since ∙ same)
