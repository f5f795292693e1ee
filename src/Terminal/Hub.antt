-- ===== src/Terminal/Hub.antt =====
-- TerminalHub.acquire and the release of a window, by any number of requests at once.
pub mod Limit
pub mod Pool
use docker_control.Prelude.{ℕ, ◌+◌, ◌-◌, ◌≡◌, Bool, List, [], ◌∷◌, ◌++◌, leb, ◌==◌, if◌then◌else◌}

-- Where a request stands: outside, in acquire with the value that it has loaded, in its window, or
-- turned away.
pub data Phase : Type 0 where
  outside : Phase
  loaded : ℕ → Phase
  inside : Phase
  refused : Phase

-- `hub.open`, with the requests
pub record Hub : Type 0 where
  pub open_windows : ℕ
  pub requests : List Phase

-- hub.open.Load() and the test behind it
unfoldable pub load : ℕ → ℕ → Phase
load max_windows open_windows =
    if leb max_windows open_windows then refused else loaded open_windows

-- hub.open.CompareAndSwap(current, current+1): the value behind it, and where the request stands;
-- a swap that fails goes round the loop again.
unfoldable pub swap : ℕ → ℕ → ℕ × Phase
swap current open_windows =
    if open_windows == current then (current + 1, inside) else (open_windows, outside)

-- Each request runs on its own: the atomic steps of acquire, and hub.open.Add(-1) at the end.
pub data Turn (max_windows : ℕ) : ℕ × Phase → ℕ × Phase → Type 0 where
  loads : (o : ℕ) → Turn max_windows (o, outside) (o, load max_windows o)
  swaps : (o current : ℕ) → Turn max_windows (o, loaded current) (swap current o)
  leaves : (o : ℕ) → Turn max_windows (o, inside) (o - 1, outside)

-- One step of one of the requests.
pub data Step (max_windows : ℕ) : Hub → Hub → Type 0 where
  turn :
      {o o' : ℕ} {p p' : Phase} (before behind : List Phase)
      → Turn max_windows (o, p) (o', p')
      → Step max_windows
          (record { open_windows = o; requests = before ++ (p ∷ behind) })
          (record { open_windows = o'; requests = before ++ (p' ∷ behind) })

pub data Reach (max_windows : ℕ) (h : Hub) : Hub → Type 0 where
  here : Reach max_windows h h
  next : {g k : Hub} → Reach max_windows h g → Step max_windows g k → Reach max_windows h k
