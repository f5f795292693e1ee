-- ===== src/Engine/Images.antt =====
-- PrepareImage and pullImage of internal/controller/docker.go: one pull in the background for an
-- image that is missing.
use docker_control.Prelude.{
  Bool, true, false, List, [], ◌∷◌, ◌++◌, Option, none, some, ◌=?◌, if◌then◌else◌,
}
use docker_control.Errors.{Kind, Error, Result, ok, err, new_error, wrap_behind}
use docker_control.Text.{Text, codes}
use docker_control.Engine.Model.{inspect_image, Body, Reply}
use docker_control.Engine.Monad.{
  World, Sys, M, pull_started, pull_ended, Pull, running, finished, pure, fail, attempt, ◌>>=◌,
}
use docker_control.Engine.Requests.{received, empty}

abbrev pub is_not_found : Error → Bool
is_not_found e = elim e.kind [ Kind.not_found ↦ true | _ ↦ false ]

-- d.imagePull, a map from images
unfoldable pub pull_of : Text → List (Text × Pull) → Option Pull
pull_of image [] = none
pull_of image ((i, p) ∷ pulls) = if i =? image then some p else pull_of image pulls

unfoldable pub set_pull : Text → Pull → List (Text × Pull) → List (Text × Pull)
set_pull image p [] = (image, p) ∷ []
set_pull image p ((i, q) ∷ pulls) =
    if i =? image then (image, p) ∷ pulls else (i, q) ∷ set_pull image p pulls

unfoldable pub drop_pull : Text → List (Text × Pull) → List (Text × Pull)
drop_pull image [] = []
drop_pull image ((i, q) ∷ pulls) =
    let rest = drop_pull image pulls in if i =? image then rest else (i, q) ∷ rest

abbrev pub drained_of : Result Body → Result (Unit {0})
drained_of (ok b) = b.drained
drained_of (err e) = err e

-- pullImage: the request's own error, its status, or the error of reading the answer to its end
unfoldable pub pull_image : Reply → Result (Unit {0})
pull_image r = drained_of (received r)

-- The end of the background goroutine, under the lock: the error is stored and `done` closed.
unfoldable pub end_pull : Text → Reply → Sys → Sys
unfolding pull_image
end_pull image r s = record s {
  trace = pull_ended image ∷ s.trace;
  pulls = set_pull image (finished (pull_image r)) s.pulls;
}

abbrev pub settle_with : Text → Option Pull → Option Reply → Sys → Sys
settle_with image (some running) (some r) s = end_pull image r s
settle_with image _ _ s = s

-- Before the lock is taken the goroutine may have ended.
unfoldable pub settle : World → Text → Sys → Sys
unfolding end_pull
settle w image s = settle_with image (pull_of image s.pulls) (w.pulled s.trace image) s

-- What PrepareImage does under the lock.
unfoldable pub consult : Text → Option Pull → M Bool
consult image none s = (
  ok false,
  record s { trace = pull_started image ∷ s.trace; pulls = set_pull image running s.pulls },
)
consult image (some running) s = (ok false, s)
consult image (some (finished (ok _))) s = (ok true, record s { pulls = drop_pull image s.pulls })
consult image (some (finished (err e))) s = (
  err (wrap_behind (codes "pull sandbox image " ++ (image ++ codes ": ")) e),
  record s { pulls = drop_pull image s.pulls },
)

unfoldable pub locked : World → Text → M Bool
unfolding settle consult
locked w image s = let s' = settle w image s in consult image (pull_of image s'.pulls) s'

unfoldable pub on_inspected : World → Text → Bool → Result (Unit {0}) → M Bool
unfolding locked
on_inspected w image pull_missing (ok _) = pure true
on_inspected w image pull_missing (err e) =
    if is_not_found e
    then (if pull_missing
        then locked w image
        else fail (new_error (codes "sandbox image is missing: " ++ image)))
    else fail e

-- PrepareImage(image, pullMissing)
unfoldable pub prepare_image : World → Text → Bool → M Bool
unfolding on_inspected
prepare_image w image pull_missing = do
  inspected ← attempt (empty w (inspect_image image))
  on_inspected w image pull_missing inspected
