-- ===== src/Engine/Waiting.antt =====
-- The polling of waitForReady of internal/controller/docker.go, and its clock.
use docker_control.Prelude.{
  ℕ, zero, suc, ◌+◌, ◌*◌, ◌<◌, ◌≤◌, ◌∷◌, ◌≡◌, refl, ltb, if◌then◌else◌, arith, Bool-cases, inl, inr,
}
use docker_control.Errors.{Result, ok, err}
use docker_control.Engine.Model.{Container, Summary}
use docker_control.Engine.Monad.{
  Event, waited, Trace, World, Sys, pure, continue, record_event, read_clock, ◌>>=◌, ◌>>◌,
}
use docker_control.Engine.Sandboxes.{inspect_readiness, now, pause, wait_loop, after_wait}
use docker_control.Engine.Effects.{Grows, same, more}
use docker_control.Engine.Effects.Queries.{inspect_readiness-IsQuery}

-- The clock does not run backwards, and a pause takes its time.
pub record Ticks (w : World) : Type 0 where
  pub forward : (t : Trace) (e : Event) → w.now t ≤ w.now (e ∷ t)
  pub paused : (t : Trace) (d : ℕ) → w.now t + d ≤ w.now (waited d ∷ t)

abbrev pub step : ℕ
step = 200 * 1_000_000

module _ (w : World) (ticks : Ticks w) where
  now-Grows : {P : Event → Type 0} {t u : Trace} → Grows P t u → w.now t ≤ w.now u
  now-Grows same = omega arith
  now-Grows (more {e = e} {t' = t'} p g) = omega (arith, now-Grows g, ticks.forward t' e)

  -- The rest of a round, behind the pause.
  pause_then :
      (item : Summary) (deadline f k : ℕ) (s : Sys)
      → ((s' : Sys)
          → w.now s.trace + step ≤ w.now s'.trace
          → wait_loop w f item deadline s' ≡ wait_loop w (f + k) item deadline s')
      → (do pause w step; wait_loop w f item deadline) s
        ≡ (do pause w step; wait_loop w (f + k) item deadline) s
  unfolding pause
  pause_then item deadline f k s h =
      after (after_wait w (w.interrupted s.trace)) (h _ (ticks.paused s.trace step))
    where
      after :
          (r : Result (Unit {0}))
          → wait_loop w f item deadline (record_event (waited step) s)
            ≡ wait_loop w (f + k) item deadline (record_event (waited step) s)
          → continue (λ _. wait_loop w f item deadline) (r, record_event (waited step) s)
            ≡ continue (λ _. wait_loop w (f + k) item deadline) (r, record_event (waited step) s)
      after (ok u) e = e
      after (err x) e = refl

  -- The rest of a round, behind the inspection.
  clock_then :
      (item : Summary) (deadline f k : ℕ) (s : Sys) (c : Container)
      → ((s' : Sys)
          → w.now s.trace + step ≤ w.now s'.trace
          → w.now s.trace ≤ deadline
          → wait_loop w f item deadline s' ≡ wait_loop w (f + k) item deadline s')
      → (do
        t ← now w
        if ltb deadline t then pure c else do pause w step; wait_loop w f item deadline)
          s
        ≡ (do
          t ← now w
          if ltb deadline t then pure c else do pause w step; wait_loop w (f + k) item deadline)
            s
  unfolding now
  clock_then item deadline f k s c h = elim (Bool-cases (ltb deadline (w.now s.trace))) [
    | inl late ↦ rw late refl
    | inr early ↦ rw early (
        pause_then item deadline f k (record_event read_clock s)
          (λ s' l. h s' (omega (arith, ticks.forward s.trace read_clock)) (ground arith)))
  ]

  round_then :
      (item : Summary) (deadline f k : ℕ) (r : Result Container × Sys)
      → ((s' : Sys)
          → w.now r.1.trace + step ≤ w.now s'.trace
          → w.now r.1.trace ≤ deadline
          → wait_loop w f item deadline s' ≡ wait_loop w (f + k) item deadline s')
      → continue
          (λ c. if c.ready then pure c else (do
            t ← now w
            if ltb deadline t then pure c else do pause w step; wait_loop w f item deadline))
          r
        ≡ continue
            (λ c. if c.ready then pure c else (do
              t ← now w
              if ltb deadline t
                  then pure c
                  else do pause w step; wait_loop w (f + k) item deadline))
            r
  round_then item deadline f k (err e, s) h = refl
  round_then item deadline f k (ok c, s) h = elim (Bool-cases c.ready) [
    | inl ready ↦ simp ready
    | inr unready ↦ simp unready (clock_then item deadline f k s c h)
  ]

  -- With `f + 1` rounds the polling has ended by itself, if the clock runs forward and the deadline
  -- is less than `f` pauses away: any number of rounds more gives the same result and does the same.
  pub wait_loop_ends :
      (f k : ℕ) (item : Summary) (deadline : ℕ) (s : Sys)
      → deadline < w.now s.trace + f * step
      → wait_loop w (suc f) item deadline s ≡ wait_loop w (suc (f + k)) item deadline s
  unfolding wait_loop
  wait_loop_ends zero k item deadline s h =
      let grown = now-Grows ((inspect_readiness-IsQuery w item).at s) in
      round_then item deadline zero k (inspect_readiness w item s)
        (λ s' l within. absurd (omega (arith, grown)))
  wait_loop_ends (suc f) k item deadline s h =
      let grown = now-Grows ((inspect_readiness-IsQuery w item).at s) in
      let e : suc f + k ≡ suc (f + k) = omega arith in
      round_then item deadline (suc f) k (inspect_readiness w item s)
        (λ s' l within. rw e (wait_loop_ends f k item deadline s' (omega (arith, grown))))
