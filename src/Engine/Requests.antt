-- ===== src/Engine/Requests.antt =====
-- json, empty and dockerStatus of internal/controller/docker.go.
use docker_control.Prelude.{ℕ, ◌≡◌, refl, ◌&&◌, [], ◌++◌, leb, ltb, ◌==◌, ◌=?◌, if◌then◌else◌}
use docker_control.Errors.{Result, ok, err, new_error, err_not_found, wrap_before}
use docker_control.Text.{Text, codes, trim_space}
use docker_control.Engine.Model.{Call, Body, Reply, failed, answered}
use docker_control.Engine.Monad.{World, Sys, M, called, lift, record_event, continue, ◌>>=◌}

-- `message.Message`, or else the text of the body
abbrev message_of : Body → Text
message_of b = if b.message =? [] then trim_space b.text else b.message

unfoldable pub docker_status : ℕ → Body → Result Body
docker_status status b =
    if leb 200 status && ltb status 300
    then ok b
    else if status == 404
    then err (wrap_before err_not_found (codes ": " ++ message_of b))
    else err (
        new_error
          (codes "docker engine returned " ++ (b.status_line ++ (codes ": " ++ message_of b))))

abbrev pub received : Reply → Result Body
received (failed e) = err e
received (answered status b) = docker_status status b

module _ (w : World) where
  -- A request, up to the check of its status.
  unfoldable pub request : Call → M Body
  request c s = (received (w.reply s.trace c), record_event (called c) s)

  unfoldable pub json : {A : Type 0} → Call → (Body → Result A) → M A
  unfolding request
  json c decode = do b ← request c; lift (decode b)

  unfoldable pub empty : Call → M (Unit {0})
  unfolding json
  empty c = json c (λ b. b.drained)

continue-lift :
    {A : Type 0} (decode : Body → Result A) (r : Result Body) (s : Sys)
    → (continue (λ b. lift (decode b)) (r, s)).1 ≡ s
continue-lift decode (ok b) s = refl
continue-lift decode (err e) s = refl

module _ (w : World) where
  -- A request changes nothing here but the trace.
  pub json_state :
      {A : Type 0} (c : Call) (decode : Body → Result A) (s : Sys)
      → (json w c decode s).1 ≡ record_event (called c) s
  unfolding json
  json_state c decode s =
      continue-lift decode (received (w.reply s.trace c)) (record_event (called c) s)

  pub empty_state : (c : Call) (s : Sys) → (empty w c s).1 ≡ record_event (called c) s
  unfolding empty
  empty_state c s = json_state c (λ b. b.drained) s
