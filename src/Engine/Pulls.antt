-- ===== src/Engine/Pulls.antt =====
-- The pulls that PrepareImage of internal/controller/docker.go starts, and their ends.
use docker_control.Prelude.{
  ℕ, ◌+◌, ◌≤◌, Bool, List, [], ◌∷◌, Option, none, some, ◌≡◌, refl, ◌=?◌, =?_iff, if◌then◌else◌,
  arith,
}
use docker_control.Errors.{Result, ok, err}
use docker_control.Text.{Text}
use docker_control.Engine.Model.{Reply, Call, inspect_image}
use docker_control.Engine.Monad.{
  pull_started, pull_ended, called, Trace, World, Sys, Pull, running, finished, record_event,
}
use docker_control.Engine.Requests.{empty, empty_state}
use docker_control.Engine.Images.{
  pull_of, set_pull, drop_pull, pull_image, end_pull, settle_with, settle, consult, locked,
  on_inspected, prepare_image,
}

pull_of-set_pull :
    (i j : Text) (p : Pull) (pulls : List (Text × Pull))
    → pull_of j (set_pull i p pulls) ≡ (if i =? j then some p else pull_of j pulls)
unfolding pull_of set_pull
pull_of-set_pull i j p [] = refl
pull_of-set_pull i j p ((k, q) ∷ pulls) =
    ground (arith, pull_of-set_pull i j p pulls, =?_iff i j, =?_iff k i, =?_iff k j)

pull_of-drop_pull :
    (i j : Text) (pulls : List (Text × Pull))
    → pull_of j (drop_pull i pulls) ≡ (if i =? j then none else pull_of j pulls)
unfolding pull_of drop_pull
pull_of-drop_pull i j [] = ground arith
pull_of-drop_pull i j ((k, q) ∷ pulls) =
    ground (arith, pull_of-drop_pull i j pulls, =?_iff i j, =?_iff k i, =?_iff k j)

-- The pulls of an image that have been started, and those that have ended.
pub started : Text → Trace → ℕ
started image [] = 0
started image (pull_started i ∷ t) = (if i =? image then 1 else 0) + started image t
started image (_ ∷ t) = started image t

pub ended : Text → Trace → ℕ
ended image [] = 0
ended image (pull_ended i ∷ t) = (if i =? image then 1 else 0) + ended image t
ended image (_ ∷ t) = ended image t

abbrev pub is_running : Option Pull → ℕ
is_running (some running) = 1
is_running _ = 0

-- The pulls that have been started and have not ended are those that the map knows to be running.
abbrev pub IsCounted : Text → Sys → Type 0
IsCounted image s = started image s.trace ≡ ended image s.trace + is_running (pull_of image s.pulls)

end_pull-IsCounted :
    (image i : Text) (r : Reply) (s : Sys)
    → pull_of i s.pulls ≡ some running
    → IsCounted image s
    → IsCounted image (end_pull i r s)
unfolding end_pull started ended
end_pull-IsCounted image i r s h c =
    ground (arith, pull_of-set_pull i image (finished (pull_image r)) s.pulls, =?_iff i image)

consult-IsCounted :
    (image i : Text) (s : Sys)
    → IsCounted image s
    → IsCounted image (consult i (pull_of i s.pulls) s).1
unfolding consult started ended
consult-IsCounted image i s c = ground (
  arith,
  pull_of-set_pull i image running s.pulls,
  pull_of-drop_pull i image s.pulls,
  =?_iff i image,
)

settle_with-IsCounted :
    (image i : Text) (r : Option Reply) (s : Sys)
    → IsCounted image s
    → IsCounted image (settle_with i (pull_of i s.pulls) r s)
settle_with-IsCounted image i r s c =
    settled (pull_of i s.pulls) r (λ r h. end_pull-IsCounted image i r s h c)
  where
    settled :
        (p : Option Pull) (r : Option Reply)
        → ((r : Reply) → p ≡ some running → IsCounted image (end_pull i r s))
        → IsCounted image (settle_with i p r s)
    settled (some running) (some r) k = k r refl
    settled _ _ k = c

locked-IsCounted :
    (w : World) (image i : Text) (s : Sys) → IsCounted image s → IsCounted image (locked w i s).1
unfolding locked settle
locked-IsCounted w image i s c =
    consult-IsCounted image i (settle_with i (pull_of i s.pulls) (w.pulled s.trace i) s)
      (settle_with-IsCounted image i (w.pulled s.trace i) s c)

on_inspected-IsCounted :
    (w : World) (image i : Text) (pull_missing : Bool) (r : Result (Unit {0})) (s : Sys)
    → IsCounted image s
    → IsCounted image (on_inspected w i pull_missing r s).1
unfolding on_inspected
on_inspected-IsCounted w image i pull_missing (ok u) s c = c
on_inspected-IsCounted w image i pull_missing (err e) s c =
    ground (arith, locked-IsCounted w image i s c)

asked-IsCounted :
    (image : Text) (c : Call) (s : Sys)
    → IsCounted image s
    → IsCounted image (record_event (called c) s)
unfolding started ended
asked-IsCounted image c s h = h

prepare_image-IsCounted :
    (w : World) (image i : Text) (pull_missing : Bool) (s : Sys)
    → IsCounted image s
    → IsCounted image (prepare_image w i pull_missing s).1
unfolding prepare_image
prepare_image-IsCounted w image i pull_missing s c =
    let (r, s') = empty w (inspect_image i) s in
    on_inspected-IsCounted w image i pull_missing r s'
      (rw (empty_state w (inspect_image i) s) (asked-IsCounted image (inspect_image i) s c))

-- The engine's requests, the calls of PrepareImage and the ends of the goroutines, in any order.
pub data Step : Sys → Sys → Type 0 where
  prepare :
      (w : World) (image : Text) (pull_missing : Bool) (s : Sys)
      → Step s (prepare_image w image pull_missing s).1
  finish :
      (image : Text) (r : Reply) (s : Sys)
      → pull_of image s.pulls ≡ some running
      → Step s (end_pull image r s)
  ask : (c : Call) (s : Sys) → Step s (record_event (called c) s)

pub data Reach (s : Sys) : Sys → Type 0 where
  here : Reach s s
  next : {t u : Sys} → Reach s t → Step t u → Reach s u

-- NewDockerEngine: no request has been made, and no pull.
abbrev pub new_engine : Sys
new_engine = record { trace = []; pulls = [] }

Step-IsCounted : (image : Text) {s t : Sys} → Step s t → IsCounted image s → IsCounted image t
Step-IsCounted image (prepare w i pull_missing s) c =
    prepare_image-IsCounted w image i pull_missing s c
Step-IsCounted image (finish i r s h) c = end_pull-IsCounted image i r s h c
Step-IsCounted image (ask k s) c = asked-IsCounted image k s c

Reach-IsCounted : (image : Text) {s t : Sys} → IsCounted image s → Reach s t → IsCounted image t
Reach-IsCounted image c here = c
Reach-IsCounted image c (next r st) = Step-IsCounted image st (Reach-IsCounted image c r)

-- Whatever calls of PrepareImage, ends of goroutines and requests follow one another, the pulls of
-- an image that have been started are those that have ended, and one more exactly while the map
-- says that the image's pull runs: there are never two at a time.
pub single_pull :
    (image : Text) (s : Sys)
    → Reach new_engine s
    → (started image s.trace ≡ ended image s.trace + is_running (pull_of image s.pulls))
      × (started image s.trace ≤ ended image s.trace + 1)
single_pull image s r =
    let c = Reach-IsCounted image (start image) r in (c, bounded (pull_of image s.pulls) c)
  where
    start : (image : Text) → IsCounted image new_engine
    start image = unfold started ended pull_of in refl

    bounded :
        (p : Option Pull)
        → started image s.trace ≡ ended image s.trace + is_running p
        → started image s.trace ≤ ended image s.trace + 1
    bounded p h = ground arith
