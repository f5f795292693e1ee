-- ===== src/Terminal/Hub/Limit.antt =====
-- The windows that are open, by acquire of internal/controller/terminal.go, and their limit.
use docker_control.Prelude.{ℕ, zero, suc, ◌+◌, ◌≤◌, ◌<◌, ◌≡◌, refl, List, [], ◌∷◌, ◌++◌, arith, All}
use docker_control.Terminal.Hub.{
  Phase, outside, loaded, inside, Hub, load, swap, Turn, loads, swaps, leaves, Step, turn, Reach,
  here, next,
}

abbrev weight : Phase → ℕ
weight inside = 1
weight _ = 0

-- The requests that are in their windows.
unfoldable pub windows : List Phase → ℕ
windows [] = 0
windows (p ∷ ps) = weight p + windows ps

windows-append :
    (before behind : List Phase) (p : Phase)
    → windows (before ++ (p ∷ behind)) ≡ weight p + (windows before + windows behind)
unfolding windows
windows-append [] behind p = omega arith
windows-append (q ∷ before) behind p = omega (arith, windows-append before behind p)

-- A value that a request holds from its load is below the limit.
abbrev pub IsLow : ℕ → Phase → Type 0
IsLow max_windows (loaded n) = n < max_windows
IsLow max_windows _ = Unit

pub record IsLimited (max_windows : ℕ) (h : Hub) : Type 0 where
  pub counted : h.open_windows ≡ windows h.requests
  pub within : h.open_windows ≤ max_windows
  pub low : All (IsLow max_windows) h.requests

pub All-middle :
    (max_windows : ℕ) (before behind : List Phase) (p : Phase)
    → All (IsLow max_windows) (before ++ (p ∷ behind))
    → IsLow max_windows p
All-middle m [] behind p h = h.0
All-middle m (q ∷ before) behind p h = All-middle m before behind p h.1

All-changed :
    (max_windows : ℕ) (before behind : List Phase) (p q : Phase)
    → IsLow max_windows q
    → All (IsLow max_windows) (before ++ (p ∷ behind))
    → All (IsLow max_windows) (before ++ (q ∷ behind))
All-changed m [] behind p q l h = (l, h.1)
All-changed m (r ∷ before) behind p q l h = (h.0, All-changed m before behind p q l h.1)

-- What a turn does to the count, by the phases before and behind it.
pub record IsFair (max_windows o : ℕ) (p : Phase) (o' : ℕ) (p' : Phase) : Type 0 where
  pub balance : (others : ℕ) → o ≡ weight p + others → o' ≡ weight p' + others
  pub within : IsLow max_windows p → o ≤ max_windows → o' ≤ max_windows
  pub low : IsLow max_windows p → IsLow max_windows p'

Turn-IsFair :
    (max_windows : ℕ) {a b : ℕ × Phase} → Turn max_windows a b → IsFair max_windows a.0 a.1 b.0 b.1
unfolding load swap
Turn-IsFair m (loads o) = record {
  balance = λ n h. ground arith;
  within = λ l h. h;
  low = λ l. ground arith;
}
Turn-IsFair m (swaps o current) = record {
  balance = λ n h. ground arith;
  within = λ l h. ground arith;
  low = λ l. ground arith;
}
Turn-IsFair m (leaves o) = record {
  balance = λ n h. omega arith;
  within = λ l h. omega arith;
  low = λ l. tt;
}

Step-IsLimited :
    (max_windows : ℕ) {g h : Hub}
    → Step max_windows g h
    → IsLimited max_windows g
    → IsLimited max_windows h
Step-IsLimited m (turn {o} {o'} {p} {p'} before behind t) v =
    let f = Turn-IsFair m t in
    let n = windows before + windows behind in
    let held = All-middle m before behind p v.low in
    record {
      counted = omega (
        arith,
        f.balance n (omega (arith, v.counted, windows-append before behind p)),
        windows-append before behind p',
      );
      within = f.within held v.within;
      low = All-changed m before behind p p' (f.low held) v.low;
    }

pub Reach-IsLimited :
    (max_windows : ℕ) {g h : Hub}
    → IsLimited max_windows g
    → Reach max_windows g h
    → IsLimited max_windows h
Reach-IsLimited m v here = v
Reach-IsLimited m v (next r s) = Step-IsLimited m s (Reach-IsLimited m v r)

-- NewTerminalHub, with `n` requests that are still outside.
abbrev pub outsiders : ℕ → List Phase
outsiders zero = []
outsiders (suc n) = outside ∷ outsiders n

abbrev pub new_hub : ℕ → Hub
new_hub n = record { open_windows = 0; requests = outsiders n }

pub new_hub-IsLimited : (max_windows n : ℕ) → IsLimited max_windows (new_hub n)
unfolding windows
new_hub-IsLimited m zero = record { counted = refl; within = omega arith; low = tt }
new_hub-IsLimited m (suc n) =
    let v = new_hub-IsLimited m n in
    record { counted = omega (arith, v.counted); within = omega arith; low = (tt, v.low) }

-- However the atomic steps of any number of requests interleave, `open` is the number of requests
-- in their windows, and it is never more than the limit.
pub windows_limit :
    (max_windows n : ℕ) (h : Hub)
    → Reach max_windows (new_hub n) h
    → (h.open_windows ≡ windows h.requests) × (h.open_windows ≤ max_windows)
windows_limit m n h r = let v = Reach-IsLimited m (new_hub-IsLimited m n) r in (v.counted, v.within)
