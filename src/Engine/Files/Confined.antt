-- ===== src/Engine/Files/Confined.antt =====
-- Where WriteFile and ReadFile of internal/controller/docker.go reach, on the paths that
-- safeWorkspacePath accepts.
use docker_control.Prelude.{
  ℕ, ◌*◌, ◌≡◌, refl, true, List, [], ◌∷◌, none, Grows, same, more, Grows-trans,
}
use docker_control.Errors.{Result}
use docker_control.Text.{Text, codes, dir, base}
use docker_control.Stream.{Outcome, read_docker_stream}
use docker_control.Types.Paths.Inside.{IsInside}
use docker_control.Types.Paths.Parent.{workspace, IsWithin, dir-IsWithin}
use docker_control.Engine.Model.{
  Call, put_archive, get_archive, create_exec, start_exec, ExecResult,
}
use docker_control.Engine.Monad.{Event, called, pull_started, streamed, Trace, World}
use docker_control.Engine.Requests.{request}
use docker_control.Engine.Sandboxes.{second, require_ready}
use docker_control.Engine.Commands.{record_chunks, collected, limited, exec_stream, exec}
use docker_control.Engine.Files.{
  make_directory, made, ensure_parent, send_file, write_file, read_file, first_file,
}
use docker_control.Engine.Effects.{
  Adds, Adds-map, Adds-pure, Adds-fail, Adds-lift, Adds-if, Adds-bind, Adds-json,
}
use docker_control.Engine.Effects.Queries.{is_get, IsQuery, require_ready-IsQuery}

-- The only command is one that makes a directory in /workspace, within thirty seconds.
pub record MakesDirectory (command : List Text) (workdir : Text) : Type 0 where
  pub parent : Text
  pub within : IsWithin parent
  pub is : command ≡ limited (30 * second) (codes "mkdir" ∷ codes "-p" ∷ parent ∷ [])
  pub there : workdir ≡ workspace

-- An event that asks, or reaches a path in /workspace alone.
abbrev pub IsConfined : Event → Type 0
IsConfined (called (put_archive _ path _)) = IsWithin path
IsConfined (called (get_archive _ path)) = IsInside path
IsConfined (called (create_exec _ command workdir)) = MakesDirectory command workdir
IsConfined (called (start_exec _)) = Unit
IsConfined (called c) = is_get c ≡ true
IsConfined (pull_started _) = ⊥
IsConfined _ = Unit

query_IsConfined : (e : Event) → IsQuery e → IsConfined e
query_IsConfined (called (put_archive _ _ _)) h = cc
query_IsConfined (called (get_archive _ _)) h = cc
query_IsConfined (called (create_exec _ _ _)) h = cc
query_IsConfined (called (start_exec _)) h = tt
query_IsConfined (called _) h = h
query_IsConfined (pull_started _) h = h
query_IsConfined _ h = tt

record_chunks-IsConfined :
    (cs : List (List ℕ)) (t : Trace) → Grows IsConfined t (record_chunks cs t)
unfolding record_chunks
record_chunks-IsConfined [] t = same
record_chunks-IsConfined (c ∷ cs) t =
    Grows-trans (more {e = streamed c} tt same) (record_chunks-IsConfined cs (streamed c ∷ t))

collected-IsConfined : (o : Outcome) → Adds IsConfined (collected o)
unfolding collected
collected-IsConfined (r, o) = record { at = λ s. record_chunks-IsConfined o.chunks s.trace }

module _ (w : World) where
  request-IsConfined : (c : Call) → IsConfined (called c) → Adds IsConfined (request w c)
  unfolding request
  request-IsConfined c h = record { at = λ s. more {e = called c} h same }

  ready-IsConfined : (session : Text) → Adds IsConfined (require_ready w session)
  ready-IsConfined session = Adds-map query_IsConfined (require_ready-IsQuery w session)

  exec-IsConfined :
      (session parent : Text)
      → IsWithin parent
      → Adds IsConfined (exec w session (make_directory parent) (30 * second) 4096)
  unfolding exec exec_stream
  exec-IsConfined session parent h = Adds-bind _ _ (ready-IsConfined session) (λ item.
      Adds-bind _ _
        (Adds-json w _ _ (record { parent = parent; within = h; is = refl; there = refl }))
        (λ id. Adds-bind _ _ (request-IsConfined (start_exec id) tt) (λ response.
          Adds-bind _ _ (collected-IsConfined (read_docker_stream 4096 none response.stream))
            (λ out. Adds-bind _ _ (Adds-json w _ _ refl) (λ code. Adds-pure _)))))

  module _ (tar : Text → List ℕ → Result (List ℕ)) where
    made-IsConfined : (r : ExecResult) → Adds IsConfined (made w tar r)
    made-IsConfined r = Adds-if _ _ _ (Adds-pure tt) (Adds-fail _)

    ensure_parent-IsConfined :
        (session parent : Text)
        → IsWithin parent
        → Adds IsConfined (ensure_parent w tar session parent)
    unfolding ensure_parent
    ensure_parent-IsConfined session parent h =
        Adds-if _ _ _ (Adds-pure tt)
          (Adds-bind _ _ (exec-IsConfined session parent h) made-IsConfined)

    pub write_file-IsConfined :
        (session path : Text) (payload : List ℕ)
        → IsInside path
        → Adds IsConfined (write_file w tar session path payload)
    unfolding write_file send_file
    write_file-IsConfined session path payload h =
        let within = dir-IsWithin path h in
        Adds-bind _ _ (ready-IsConfined session) (λ item.
          Adds-bind _ _ (ensure_parent-IsConfined session (dir path) within) (λ _.
            Adds-bind _ _ (Adds-lift (tar (base path) payload)) (λ archive.
              Adds-bind _ _ (request-IsConfined (put_archive item.id (dir path) archive) within)
                (λ response. Adds-pure tt))))

  pub read_file-IsConfined :
      (session path : Text) (max : ℕ)
      → IsInside path
      → Adds IsConfined (read_file w session path max)
  unfolding read_file
  read_file-IsConfined session path max h = Adds-bind _ _ (ready-IsConfined session) (λ item.
      Adds-bind _ _ (request-IsConfined (get_archive item.id path) h)
        (λ response. Adds-lift (first_file max response.archive.entries response.archive.ending)))
