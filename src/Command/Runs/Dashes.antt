-- ===== src/Command/Runs/Dashes.antt =====
-- Arguments in front of which Run of internal/command/command.go puts "server".
use docker_control.Prelude.{
  ℕ, ◌≡◌, refl, Bool, List, [], ◌∷◌, Option, inl, inr, ℤ, Any, ◌=?◌, if◌then◌else◌,
}
use docker_control.Errors.{Error, Result, ok, err}
use docker_control.Text.{Text, codes}
use docker_control.Engine.Monad.{World}
use docker_control.EnvFile.{cut_at}
use docker_control.Command.{pre_argument}
use docker_control.Command.Machine.{Log, Machine, Proc, P, lift, continue, ◌>>=◌}
use docker_control.Command.Flags.{parse_flags}
use docker_control.Command.Removal.{Marker}
use docker_control.Command.RuntimeFile.{RuntimeInfo}
use docker_control.Command.Layout.{resolve_layout}
use docker_control.Command.Prepare.{
  server_mode, is_some, prepare_flags, migrate, load_environment, environment_config, options_of,
  settle, prepare,
}
use docker_control.Command.Runs.{Status, run_server, dispatch, exit_code, run}

-- `m` returns an error, whatever the state.
record Fails {A : Type 0} (m : P A) : Type 0 where
  at : (s : Proc) → (e : Error) × ((m s).0 ≡ err e)

module _ {A B : Type 0} where
  failed_before :
      (f : A → P B) (p : Result A × Proc)
      → (e : Error) × (p.0 ≡ err e)
      → (e : Error) × ((continue f p).0 ≡ err e)
  failed_before f (r, s) (e, h) = (e, rw h refl)

  failed_behind :
      (f : A → P B) (r : Result A) (s : Proc)
      → ((a : A) → Fails (f a))
      → (e : Error) × ((continue f (r, s)).0 ≡ err e)
  failed_behind f (ok a) s h = (h a).at s
  failed_behind f (err e) s h = (e, refl)

  Fails-before : (m : P A) (f : A → P B) → Fails m → Fails (m >>= f)
  Fails-before m f h = record { at = λ s. failed_before f (m s) (h.at s) }

  Fails-behind : (m : P A) (f : A → P B) → ((a : A) → Fails (f a)) → Fails (m >>= f)
  Fails-behind m f h = record { at = λ s. failed_behind f (m s).0 (m s).1 h }

Fails-lift : {A : Type 0} (r : Result A) (e : Error) → r ≡ err e → Fails (lift r)
Fails-lift r e h = record { at = λ s. (e, h) }

-- The words for which the switch of Run has a case besides "version" and "help".
abbrev pub dashed : List Text
dashed = codes "--version" ∷ codes "-version" ∷ codes "--help" ∷ codes "-h" ∷ []

refuses :
    (int_ok : Text → Bool) (word : Text) (args : List Text)
    → Any (λ w. word ≡ w) dashed
    → (e : Error) × (parse_flags int_ok (prepare_flags server_mode) (word ∷ args) ≡ err e)
unfolding parse_flags cut_at ◌=?◌
refuses int_ok word args (inl e) = rw e (_, refl)
refuses int_ok word args (inr (inl e)) = rw e (_, refl)
refuses int_ok word args (inr (inr (inl e))) = rw e (_, refl)
refuses int_ok word args (inr (inr (inr (inl e)))) = rw e (_, refl)
refuses int_ok word args (inr (inr (inr (inr x)))) = absurd x

module _ (m : Machine) (world : Text → World)
    (ranged : Log → List (Text × Text) → List (Text × Text)) (marker_bytes : Log → Text → List ℕ)
    (parse_int0 : Text → Option ℤ) (marshal_info : RuntimeInfo → List ℕ)
    (marshal_status : Status → Text) (is_json : List ℕ → Bool) (unmarshal : List ℕ → Result Marker)
    (linux : Bool) (pid : ℕ) where
  prepare-Fails :
      (word : Text) (args : List Text)
      → Any (λ w. word ≡ w) dashed
      → Fails (prepare m ranged marker_bytes parse_int0 (word ∷ args) server_mode)
  unfolding prepare
  prepare-Fails word args h =
      let (e, refused) = refuses (λ t. is_some (parse_int0 t)) word args h in
      let given = word ∷ args in
      let explicit = pre_argument given (codes "--env-file") in
      let int_ok = λ (t : Text). is_some (parse_int0 t) in
      Fails-behind (resolve_layout m (pre_argument given (codes "--home"))) _ (λ layout.
        Fails-behind (migrate m server_mode given layout) _ (λ _.
          Fails-behind (load_environment m (if explicit =? [] then layout.config else explicit)) _
            (λ _. Fails-behind (environment_config m) _ (λ cfg.
              Fails-before (lift (parse_flags int_ok (prepare_flags server_mode) given))
                (λ set.
                  settle m ranged marker_bytes parse_int0 server_mode explicit layout cfg
                    (options_of parse_int0 layout explicit cfg set))
                (Fails-lift _ e refused)))))

  run_server-Fails :
      (word : Text) (args : List Text)
      → Any (λ w. word ≡ w) dashed
      → Fails (
          run_server m world ranged marker_bytes parse_int0 marshal_info marshal_status is_json
            unmarshal linux pid
            (word ∷ args))
  unfolding run_server
  run_server-Fails word args h = record {
    at = λ s.
        failed_before _ (prepare m ranged marker_bytes parse_int0 (word ∷ args) server_mode s)
          ((prepare-Fails word args h).at s);
  }

  exit_failed :
      (p : Result (Unit {0}) × Proc)
      → (e : Error) × (p.0 ≡ err e)
      → (exit_code m world ranged marker_bytes parse_int0 marshal_info marshal_status is_json
          unmarshal linux pid p.0 p.1).0
        ≡ ok 1
  exit_failed (ok x, s) (e, h) = cc
  exit_failed (err x, s) h = refl

  -- Run, with --version, -version, --help or -h as its first argument, ends with the exit code 1,
  -- whatever the other arguments are: it takes them for options of the server, which has none of
  -- these.
  pub run-dashed :
      (version word : Text) (args : List Text) (s : Proc)
      → Any (λ w. word ≡ w) dashed
      → (run m world ranged marker_bytes parse_int0 marshal_info marshal_status is_json unmarshal
          linux pid version
          (word ∷ args)
          s).0
        ≡ ok 1
  unfolding run dispatch ◌=?◌
  run-dashed version word args s h = elim h [
    | inl e ↦ rw e (exit_failed _ ((run_server-Fails (codes "--version") args (inl refl)).at s))
    | inr (inl e) ↦
        rw e (exit_failed _ ((run_server-Fails (codes "-version") args (inr (inl refl))).at s))
    | inr (inr (inl e)) ↦
        rw e (exit_failed _ ((run_server-Fails (codes "--help") args (inr (inr (inl refl)))).at s))
    | inr (inr (inr (inl e))) ↦
        rw e
          (exit_failed _ ((run_server-Fails (codes "-h") args (inr (inr (inr (inl refl))))).at s))
    | inr (inr (inr (inr x))) ↦ absurd x
  ]
