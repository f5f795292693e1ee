-- ===== src/Prelude/Traces.antt =====
-- Traces that grow, the latest event first.
use mathlib.Core.List.{List, ◌∷◌}

-- `t` has grown to the trace by events of `P` alone.
pub data Grows {E : Type 0} (P : E → Type 0) (t : List E) : List E → Type 0 where
  same : Grows P t t
  more : {e : E} {t' : List E} → P e → Grows P t t' → Grows P t (e ∷ t')

module _ {E : Type 0} where
  pub Grows-trans : {P : E → Type 0} {t u v : List E} → Grows P t u → Grows P u v → Grows P t v
  Grows-trans g same = g
  Grows-trans g (more p h) = more p (Grows-trans g h)

  pub Grows-map :
      {P Q : E → Type 0} {t u : List E} → ((e : E) → P e → Q e) → Grows P t u → Grows Q t u
  Grows-map f same = same
  Grows-map f (more {e = e} p h) = more (f e p) (Grows-map f h)
