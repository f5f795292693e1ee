-- ===== src/Engine/Effects/Preparation.antt =====
-- The requests and the pulls of PrepareImage of internal/controller/docker.go.
use docker_control.Prelude.{true, Bool, ◌≡◌, refl, Option, none, some}
use docker_control.Errors.{Result, ok, err}
use docker_control.Text.{Text}
use docker_control.Engine.Model.{inspect_image, Reply}
use docker_control.Engine.Monad.{Event, called, streamed, World, Sys, Pull, running, finished}
use docker_control.Engine.Images.{
  is_not_found, pull_of, settle, settle_with, end_pull, consult, locked, on_inspected,
  prepare_image,
}
use docker_control.Engine.Effects.{
  Grows, same, more, Grows-trans, Adds, Adds-pure, Adds-fail, Adds-if, Adds-bind, Adds-empty,
  Adds-attempt,
}
use docker_control.Engine.Effects.Queries.{is_get, IsQuery}

-- An event that changes no container and no snapshot: a request by GET, but for archives, or one that is
-- no request and no output. A pull may start.
abbrev pub IsPreparation : Event → Type 0
IsPreparation (called c) = is_get c ≡ true
IsPreparation (streamed _) = ⊥
IsPreparation _ = Unit

pub query-IsPreparation : (e : Event) → IsQuery e → IsPreparation e
query-IsPreparation (called c) h = h
query-IsPreparation (streamed chunk) h = h
query-IsPreparation _ h = tt

settle_with-IsPreparation :
    (image : Text) (p : Option Pull) (r : Option Reply) (s : Sys)
    → Grows IsPreparation s.trace (settle_with image p r s).trace
unfolding end_pull
settle_with-IsPreparation image (some running) (some r) s = more tt same
settle_with-IsPreparation image _ _ s = same

consult-IsPreparation :
    (image : Text) (p : Option Pull) (s : Sys)
    → Grows IsPreparation s.trace (consult image p s).1.trace
unfolding consult
consult-IsPreparation image none s = more tt same
consult-IsPreparation image (some running) s = same
consult-IsPreparation image (some (finished (ok u))) s = same
consult-IsPreparation image (some (finished (err e))) s = same

locked-IsPreparation : (w : World) (image : Text) → Adds IsPreparation (locked w image)
unfolding locked settle
locked-IsPreparation w image = record {
  at = λ s.
      Grows-trans
        (settle_with-IsPreparation image (pull_of image s.pulls) (w.pulled s.trace image) s)
        (consult-IsPreparation image _ (settle w image s));
}

on_inspected-IsPreparation :
    (w : World) (image : Text) (pull : Bool) (r : Result (Unit {0}))
    → Adds IsPreparation (on_inspected w image pull r)
unfolding on_inspected
on_inspected-IsPreparation w image pull (ok u) = Adds-pure true
on_inspected-IsPreparation w image pull (err e) =
    Adds-if (is_not_found e) _ _ (Adds-if pull _ _ (locked-IsPreparation w image) (Adds-fail _))
      (Adds-fail e)

pub prepare_image-IsPreparation :
    (w : World) (image : Text) (pull : Bool) → Adds IsPreparation (prepare_image w image pull)
unfolding prepare_image
prepare_image-IsPreparation w image pull =
    Adds-bind _ _ (Adds-attempt _ (Adds-empty w (inspect_image image) refl))
      (on_inspected-IsPreparation w image pull)
