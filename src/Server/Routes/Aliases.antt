-- ===== src/Server/Routes/Aliases.antt =====
-- The aliases under /v1/containers of internal/controller/server.go.
use docker_control.Prelude.{
  ◌≡◌, refl, Bool, true, false, List, [], ◌∷◌, Option, none, ◌=?◌, =?_sound, Bool-cases, inl, inr,
  if◌then◌else◌,
}
use mathlib.Core.Path.{subst}
use docker_control.Text.{Text, codes}
use docker_control.Server.Routes.{Handler, found, not_found, match_parts, route}

either_way : (b : Bool) (o : Option (List Text)) → (if b then o else o) ≡ o
either_way true o = refl
either_way false o = refl

-- No path under /v1/containers has two parts behind the key.
long_not_found :
    (method key x y : Text) (rest : List Text)
    → route method (codes "v1" ∷ codes "containers" ∷ key ∷ x ∷ y ∷ rest) ≡ not_found
unfolding route match_parts ◌=?◌
long_not_found method key x y rest =
    rw (either_way (codes "rebuild" =? x) none) (
      rw (either_way (codes "terminal" =? x) none) (rw (either_way (codes "files" =? x) none) refl))

no_snapshots :
    (method key : Text)
    → route method (codes "v1" ∷ codes "containers" ∷ key ∷ codes "snapshots" ∷ []) ≡ not_found
unfolding route match_parts ◌=?◌
no_snapshots method key = refl

-- Each request that the routes under /v1/containers answer is answered by the same handler, with the
-- same key, under /v1/sandboxes.
pub route-alias :
    (method : Text) (rest : List Text) (h : Handler)
    → route method (codes "v1" ∷ codes "containers" ∷ rest) ≡ found h
    → route method (codes "v1" ∷ codes "sandboxes" ∷ rest) ≡ found h
unfolding route match_parts ◌=?◌
route-alias method [] h e = e
route-alias method (key ∷ []) h e = e
route-alias method (key ∷ x ∷ []) h e = elim (Bool-cases (codes "snapshots" =? x)) [
  | inl same ↦
      subst
        (λ y.
          route method (codes "v1" ∷ codes "containers" ∷ key ∷ y ∷ []) ≡ found h
          → route method (codes "v1" ∷ codes "sandboxes" ∷ key ∷ y ∷ []) ≡ found h)
        (=?_sound (codes "snapshots") x same) (λ k. let missing = no_snapshots method key in cc) e
  | inr other ↦ rw other e
]
route-alias method (key ∷ x ∷ y ∷ rest) h e = let missing = long_not_found method key x y rest in cc
