-- ===== src/Terminal/Hub/Pool.antt =====
-- An abstract pool of windows beside TerminalHub of internal/controller/terminal.go: it knows who holds a
-- window, and neither the counter nor the values that requests have loaded from it.
use docker_control.Prelude.{
  ℕ, ◌+◌, ◌≤◌, ◌<◌, ◌≡◌, refl, sym, ◌∙◌, ap, List, [], ◌∷◌, ◌++◌, ◌⊎◌, inl, inr, arith, leb, ◌==◌,
  Bool-cases,
}
use mathlib.Core.Path.{subst}
use docker_control.Terminal.Hub.{
  Phase, outside, loaded, inside, refused, Hub, load, swap, Turn, loads, swaps, leaves, Step, turn,
  Reach, here, next,
}
use docker_control.Terminal.Hub.Limit.{
  windows, IsLow, IsLimited, All-middle, Reach-IsLimited, new_hub, new_hub-IsLimited,
}

-- What a request has: nothing yet, a window, or the answer that there is none.
pub data Ticket : Type 0 where
  waiting : Ticket
  holding : Ticket
  turned_away : Ticket

abbrev held : Ticket → ℕ
held holding = 1
held _ = 0

pub holders : List Ticket → ℕ
holders [] = 0
holders (t ∷ ts) = held t + holders ts

-- The pool gives a window while fewer than the limit are held, and turns away while all of them are.
pub data Gives (max_windows : ℕ) : List Ticket → List Ticket → Type 0 where
  enters :
      (before behind : List Ticket)
      → holders (before ++ (waiting ∷ behind)) < max_windows
      → Gives max_windows (before ++ (waiting ∷ behind)) (before ++ (holding ∷ behind))
  refuses :
      (before behind : List Ticket)
      → max_windows ≤ holders (before ++ (waiting ∷ behind))
      → Gives max_windows (before ++ (waiting ∷ behind)) (before ++ (turned_away ∷ behind))
  returns :
      (before behind : List Ticket)
      → Gives max_windows (before ++ (holding ∷ behind)) (before ++ (waiting ∷ behind))

pub data Runs (max_windows : ℕ) (ts : List Ticket) : List Ticket → Type 0 where
  starts : Runs max_windows ts ts
  gives :
      {us vs : List Ticket}
      → Runs max_windows ts us
      → Gives max_windows us vs
      → Runs max_windows ts vs

-- What the pool sees of a request
abbrev pub view : Phase → Ticket
view outside = waiting
view (loaded _) = waiting
view inside = holding
view refused = turned_away

abbrev pub views : List Phase → List Ticket
views [] = []
views (p ∷ ps) = view p ∷ views ps

views-append :
    (before behind : List Phase) (p : Phase)
    → views (before ++ (p ∷ behind)) ≡ views before ++ (view p ∷ views behind)
views-append [] behind p = refl
views-append (q ∷ before) behind p = ap (λ ts. view q ∷ ts) (views-append before behind p)

holders-views : (ps : List Phase) → holders (views ps) ≡ windows ps
unfolding holders windows
holders-views [] = refl
holders-views (outside ∷ ps) = omega (arith, holders-views ps)
holders-views (loaded n ∷ ps) = omega (arith, holders-views ps)
holders-views (inside ∷ ps) = omega (arith, holders-views ps)
holders-views (refused ∷ ps) = omega (arith, holders-views ps)

-- A turn of the hub's is one that the pool does not see, or gives.
abbrev IsGiven : ℕ → List Phase → List Phase → Phase → Phase → Type 0
IsGiven m before behind p p' =
    (view p ≡ view p')
    ⊎ Gives m (views before ++ (view p ∷ views behind)) (views before ++ (view p' ∷ views behind))

holders-before :
    (before behind : List Phase) (p : Phase)
    → holders (views before ++ (view p ∷ views behind)) ≡ windows (before ++ (p ∷ behind))
holders-before before behind p =
    ap holders (sym (views-append before behind p)) ∙ holders-views (before ++ (p ∷ behind))

load-IsGiven :
    (m o : ℕ) (before behind : List Phase)
    → o ≡ windows (before ++ (outside ∷ behind))
    → IsGiven m before behind outside (load m o)
unfolding load
load-IsGiven m o before behind counted = elim (Bool-cases (leb m o)) [
  | inl full ↦ rw full (
      inr (
        refuses (views before) (views behind)
          (ground (arith, counted, holders-before before behind outside))))
  | inr free ↦ rw free (inl refl)
]

swap-IsGiven :
    (m o current : ℕ) (before behind : List Phase)
    → o ≡ windows (before ++ (loaded current ∷ behind))
    → current < m
    → IsGiven m before behind (loaded current) (swap current o).1
unfolding swap
swap-IsGiven m o current before behind counted low = elim (Bool-cases (o == current)) [
  | inl same ↦ rw same (
      inr (
        enters (views before) (views behind)
          (ground (arith, counted, holders-before before behind (loaded current)))))
  | inr other ↦ rw other (inl refl)
]

Turn-IsGiven :
    (m : ℕ) (before behind : List Phase) {a b : ℕ × Phase}
    → Turn m a b
    → a.0 ≡ windows (before ++ (a.1 ∷ behind))
    → IsLow m a.1
    → IsGiven m before behind a.1 b.1
Turn-IsGiven m before behind (loads o) counted low = load-IsGiven m o before behind counted
Turn-IsGiven m before behind (swaps o current) counted low =
    swap-IsGiven m o current before behind counted low
Turn-IsGiven m before behind (leaves o) counted low = inr (returns (views before) (views behind))

Step-Runs :
    (m : ℕ) {g h : Hub} (ts : List Ticket)
    → Step m g h
    → IsLimited m g
    → Runs m ts (views g.requests)
    → Runs m ts (views h.requests)
Step-Runs m ts (turn {o} {o'} {p} {p'} before behind t) v r =
    rw (views-append before behind p')
      (elim (Turn-IsGiven m before behind t v.counted (All-middle m before behind p v.low)) [
        | inl unseen ↦
            subst (λ x. Runs m ts (views before ++ (x ∷ views behind))) unseen
              (subst (Runs m ts) (views-append before behind p) r)
        | inr given ↦ gives (subst (Runs m ts) (views-append before behind p) r) given
      ])

-- Every interleaving of the atomic steps of acquire and release is a run of the pool: a request gets a
-- window at a moment at which fewer than the limit are held, is turned away only at a moment at
-- which all of them are, and else the pool sees no change.
pub Reach-Runs :
    (max_windows n : ℕ) (h : Hub)
    → Reach max_windows (new_hub n) h
    → Runs max_windows (views (new_hub n).requests) (views h.requests)
Reach-Runs m n h here = starts
Reach-Runs m n h (next {g} r s) =
    Step-Runs m (views (new_hub n).requests) s (Reach-IsLimited m (new_hub-IsLimited m n) r)
      (Reach-Runs m n g r)
