-- ===== src/Server/Rebuilding.antt =====
-- rebuildContainer of internal/controller/server.go where the image is not ready.
use docker_control.Prelude.{ℕ, Bool, true, false, ◌≡◌, ◌≢◌, refl, inl, List, arith}
use docker_control.Errors.{Kind, Result, ok, err}
use docker_control.Text.{Text}
use docker_control.Types.Config.{Config}
use docker_control.Engine.Monad.{World, Sys}
use docker_control.Engine.Images.{prepare_image}
use docker_control.Engine.Effects.{Grows}
use docker_control.Engine.Effects.Replacement.{Preserves, prepare_image-Preserves}
use docker_control.Http.{Response, Request, status_of, write_engine_error}
use docker_control.Server.{requested_image, rebuild_prepared, rebuild_with, rebuild_container}

-- The handler's answer, and what it has done.
pub record Refused (before : Sys) (after : Result Response × Sys) : Type 0 where
  pub response : Response
  pub written : after.0 ≡ ok response
  pub failed : response.status ≢ 200
  pub preserved : Grows Preserves before.trace after.1.trace

status_of-ne : (k : Kind) → status_of k ≢ 200
status_of-ne k h = ground arith

module _ (w : World) (sha256 : List ℕ → List ℕ) (cfg : Config) where
  -- A rebuild deletes no container and creates none, and answers with an error, if the image that it
  -- is asked for cannot be prepared or is still being prepared.
  pub rebuild_container-Preserves :
      (r : Request) (image : Text) (s : Sys)
      → requested_image cfg r ≡ inl image
      → (prepare_image w image cfg.pull_missing_image s).0 ≢ ok true
      → Refused s (rebuild_container w sha256 cfg r s)
  unfolding rebuild_container rebuild_with rebuild_prepared
  rebuild_container-Preserves r image s asked unready = rw asked (
      prepared (prepare_image w image cfg.pull_missing_image s) unready
        ((prepare_image-Preserves w image cfg.pull_missing_image).at s))
    where
      prepared :
          (p : Result Bool × Sys)
          → p.0 ≢ ok true
          → Grows Preserves s.trace p.1.trace
          → Refused s (rebuild_prepared w sha256 cfg r.key image p.0 p.1)
      prepared (err e, s') n g = record {
        response = write_engine_error e;
        written = refl;
        failed = status_of-ne e.kind;
        preserved = g;
      }
      prepared (ok false, s') n g = record {
        response = _;
        written = refl;
        failed = λ h. ground arith;
        preserved = g;
      }
      prepared (ok true, s') n g = absurd (n refl)
