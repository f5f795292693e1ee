-- ===== src/Engine/Files.antt =====
-- WriteFile and ReadFile of internal/controller/docker.go.
pub mod Confined
use docker_control.Prelude.{
  ℕ, suc, ◌*◌, Bool, true, false, not, List, [], ◌∷◌, ◌++◌, length, take, leb, ltb, ◌==◌, ◌=?◌,
  if◌then◌else◌,
}
use docker_control.Errors.{Error, Result, ok, err, new_error, err_not_found}
use docker_control.Text.{Text, codes, dir, base}
use docker_control.Bytes.{Stream}
use docker_control.Types.Paths.Parent.{workspace}
use docker_control.Stream.{is_eof}
use docker_control.Engine.Model.{
  ExecRequest, ExecResult, Entry, Archive, Summary, get_archive, put_archive,
}
use docker_control.Engine.Monad.{World, M, pure, fail, lift, ◌>>=◌, ◌>>◌}
use docker_control.Engine.Requests.{request}
use docker_control.Engine.Sandboxes.{second, require_ready}
use docker_control.Engine.Commands.{exec}

abbrev pub make_directory : Text → ExecRequest
make_directory parent = record {
  command = codes "mkdir" ∷ codes "-p" ∷ parent ∷ [];
  workdir = workspace;
}

-- io.ReadAll of an io.LimitReader: an error behind the limit is not met.
unfoldable pub read_limited : ℕ → Stream → Result (List ℕ)
read_limited limit s =
    if leb limit (length s.bytes)
    then ok (take limit s.bytes)
    else if is_eof s.ending
    then ok s.bytes
    else err s.ending

-- The payload and whether it is cut
abbrev pub cut : ℕ → List ℕ → List ℕ × Bool
cut max payload = if ltb max (length payload) then (take max payload, true) else (payload, false)

abbrev pub cut_result : ℕ → Result (List ℕ) → Result (List ℕ × Bool)
cut_result max (err e) = err e
cut_result max (ok payload) = ok (cut max payload)

-- The loop of ReadFile over the entries: the first regular file
unfoldable pub first_file : ℕ → List Entry → Error → Result (List ℕ × Bool)
first_file max [] ending = if is_eof ending then err err_not_found else err ending
first_file max (entry ∷ entries) ending =
    if entry.regular
    then cut_result max (read_limited (suc max) entry.contents)
    else first_file max entries ending

-- `tar` is archive/tar's Writer on one file with the mode 0600, of a name and a payload.
module _ (w : World) (tar : Text → List ℕ → Result (List ℕ)) where
  abbrev pub made : ExecResult → M (Unit {0})
  made r =
      if r.exit_code == 0
      then pure tt
      else fail (new_error (codes "create parent directory: " ++ r.output))

  unfoldable pub ensure_parent : Text → Text → M (Unit {0})
  ensure_parent session parent =
      if parent =? workspace
      then pure tt
      else (do r ← exec w session (make_directory parent) (30 * second) 4096; made r)

  unfoldable pub send_file : Text → Text → List ℕ → Summary → M (Unit {0})
  send_file parent name payload item = do
    archive ← lift (tar name payload)
    response ← request w (put_archive item.id parent archive)
    pure tt

  unfoldable pub write_file : Text → Text → List ℕ → M (Unit {0})
  unfolding ensure_parent send_file
  write_file session path payload = do
    item ← require_ready w session
    ensure_parent session (dir path)
    send_file (dir path) (base path) payload item

module _ (w : World) where
  -- ReadFile; `max` is not negative.
  unfoldable pub read_file : Text → Text → ℕ → M (List ℕ × Bool)
  unfolding first_file
  read_file session path max = do
    item ← require_ready w session
    response ← request w (get_archive item.id path)
    lift (first_file max response.archive.entries response.archive.ending)
