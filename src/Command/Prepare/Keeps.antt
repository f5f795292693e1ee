-- ===== src/Command/Prepare/Keeps.antt =====
-- What prepare of internal/command/command.go leaves as it is.
use docker_control.Prelude.{
  ℕ, ◌≡◌, false, not, ◌&&◌, List, [], Option, none, same, more, Grows-trans, ◌=?◌, true, some, refl,
  if◌then◌else◌, ℤ,
}
use docker_control.Errors.{Error, Result}
use docker_control.Command.Removal.{is_missing}
use docker_control.Text.{Text, codes, trim_space, is_abs, clean, dir}
use docker_control.Bytes.Hex.{encode_hex}
use docker_control.Types.Config.{Config, validate}
use docker_control.Types.Config.Environment.{config_from_env}
use docker_control.Command.Machine.{
  Log, Act, stat, read_file, got_wd, drew_token, mkdir_all, write_file, printed, logged, Machine, P,
  lift, done, attempt, act, ◌>>=◌, ◌>>◌,
}
use docker_control.Command.{pre_argument}
use docker_control.Command.Flags.{parse_flags}
use docker_control.Command.Layout.{Layout, absolute, resolve_layout}
use docker_control.Command.LocalFiles.{
  make_marker, ensure_marker, make_config, test_breaks, tested, local_content, ensure_local_files,
  random_token,
}
use docker_control.Command.Prepare.{
  Mode, is_install, Options, given_token, load_env_file, migrate, load_found, load_environment,
  environment_config, settled, listen_of, configured, is_some, prepare_flags, options_of,
  keep_files, settle, prepare,
}
use docker_control.Command.Effects.{
  Adds, Adds-pure, Adds-fail, Adds-lift, Adds-gets, Adds-using, Adds-ignored, Adds-if, Adds-if_true,
  Adds-bind, Adds-act, Adds-contents, Adds-wd, Adds-random,
}

-- An act that changes no file that is there: it reads, draws random bytes, prints, makes a directory,
-- or writes a file of which `stat` has said that it does not exist.
abbrev pub Keeps : Machine → Act → Type 0
Keeps m got_wd = Unit
Keeps m (stat _) = Unit
Keeps m (read_file _) = Unit
Keeps m (drew_token _) = Unit
Keeps m (mkdir_all _) = Unit
Keeps m (printed _) = Unit
Keeps m (write_file path _) =
    (log : Log) × (e : Error) × (m.fails log (stat path) ≡ some e) × (is_missing e ≡ true)
Keeps m _ = ⊥

module _ (m : Machine) where
  after_stat :
      {A : Type 0} (path : Text) (f : Result (Unit {0}) → P A)
      → ((log : Log) (r : Option Error) → m.fails log (stat path) ≡ r → Adds (Keeps m) (f (done r)))
      → Adds (Keeps m) (attempt (act m (stat path)) >>= f)
  after_stat path f h = record {
    at = λ s.
        Grows-trans (more {e = stat path} tt same)
          ((h s.log (m.fails s.log (stat path)) refl).at (logged (stat path) s));
  }

  absolute-Keeps : (path : Text) → Adds (Keeps m) (absolute m path)
  absolute-Keeps path =
      Adds-if (is_abs path) _ _ (Adds-pure (clean path))
        (Adds-bind _ _ (Adds-wd m tt) (λ here. Adds-pure _))

  resolve_layout-Keeps : (home : Text) → Adds (Keeps m) (resolve_layout m home)
  unfolding resolve_layout
  resolve_layout-Keeps home =
      Adds-bind _ _ (Adds-if (trim_space home =? []) _ _ (Adds-wd m tt) (Adds-pure home))
        (λ home'. Adds-bind _ _ (absolute-Keeps home') (λ root. Adds-pure _))

  load_env_file-Keeps : (path : Text) → Adds (Keeps m) (load_env_file m path)
  unfolding load_env_file
  load_env_file-Keeps path =
      Adds-bind _ _ (Adds-contents m path tt) (λ contents. record { at = λ s. same })

  load_environment-Keeps : (path : Text) → Adds (Keeps m) (load_environment m path)
  unfolding load_environment
  load_environment-Keeps path = after_stat path (load_found m path) found_Keeps
    where
      found_Keeps :
          (log : Log) (r : Option Error)
          → m.fails log (stat path) ≡ r
          → Adds (Keeps m) (load_found m path (done r))
      found_Keeps log none h = load_env_file-Keeps path
      found_Keeps log (some e) h = Adds-if _ _ _ (Adds-pure tt) (Adds-fail e)

  environment_config-Keeps : Adds (Keeps m) (environment_config m)
  unfolding environment_config random_token
  environment_config-Keeps = Adds-bind _ _ (Adds-gets (λ s. config_from_env s.env)) (λ cfg.
      Adds-bind _ _
        (Adds-if (cfg.bearer_token =? []) _ _
          (Adds-bind _ _ (Adds-random m 32 tt) (λ bytes. Adds-pure (encode_hex bytes)))
          (Adds-pure cfg.bearer_token))
        (λ token. Adds-pure (given_token cfg token)))

  module _ (ranged : Log → List (Text × Text) → List (Text × Text))
      (marker_bytes : Log → Text → List ℕ) (parse_int0 : Text → Option ℤ) where
    make_marker-Keeps :
        (layout : Layout) (log : Log) (r : Option Error)
        → m.fails log (stat layout.marker) ≡ r
        → Adds (Keeps m) (make_marker m ranged marker_bytes layout (done r))
    make_marker-Keeps layout log none h = Adds-pure tt
    make_marker-Keeps layout log (some e) h =
        Adds-if_true (is_missing e) _ _
          (λ gone. Adds-using _ (λ log'.
            Adds-act m (write_file layout.marker (marker_bytes log' layout.root))
              (log, e, h, gone)))
          (λ _. Adds-fail e)

    make_config-Keeps :
        (layout : Layout) (cfg : Config) (log : Log) (r : Option Error)
        → m.fails log (stat layout.config) ≡ r
        → Adds (Keeps m) (make_config m ranged marker_bytes layout cfg (done r))
    make_config-Keeps layout cfg log none h = Adds-pure tt
    make_config-Keeps layout cfg log (some e) h =
        Adds-if_true (is_missing e) _ _
          (λ gone. Adds-act m (write_file layout.config (local_content cfg)) (log, e, h, gone))
          (λ _. Adds-fail e)

    ensure_marker-Keeps :
        (layout : Layout) → Adds (Keeps m) (ensure_marker m ranged marker_bytes layout)
    unfolding ensure_marker
    ensure_marker-Keeps layout = Adds-bind _ _ (Adds-act m (mkdir_all (dir layout.bin)) tt) (λ _.
        after_stat layout.marker (make_marker m ranged marker_bytes layout)
          (make_marker-Keeps layout))

    ensure_local_files-Keeps :
        (layout : Layout) (cfg : Config)
        → Adds (Keeps m) (ensure_local_files m ranged marker_bytes layout cfg)
    unfolding ensure_local_files
    ensure_local_files-Keeps layout cfg =
        Adds-bind _ _ (Adds-act m (mkdir_all (dir layout.bin)) tt) (λ _.
          Adds-bind _ _
            (Adds-using (λ log. lift (test_breaks (ranged log (tested cfg))))
              (λ log. Adds-lift (test_breaks (ranged log (tested cfg)))))
            (λ _.
              after_stat layout.config
                (λ found.
                  make_config m ranged marker_bytes layout cfg found
                  >> ensure_marker m ranged marker_bytes layout)
                (λ log r h.
                  Adds-bind _ _ (make_config-Keeps layout cfg log r h)
                    (λ _. ensure_marker-Keeps layout))))

    module _ (mode : Mode) (no_install : is_install mode ≡ false) where
      keep_files-Keeps :
          (explicit : Text) (layout : Layout) (cfg : Config)
          → Adds (Keeps m) (keep_files m ranged marker_bytes parse_int0 mode explicit layout cfg)
      keep_files-Keeps explicit layout cfg =
          Adds-if (explicit =? []) _ _
            (Adds-bind _ _ (ensure_local_files-Keeps layout cfg)
              (λ _. Adds-ignored _ (Adds-act m (printed _) tt)))
            (Adds-bind _ _ (ensure_marker-Keeps layout) (λ _. rw no_install (Adds-pure tt)))

      settle-Keeps :
          (explicit : Text) (first : Layout) (cfg : Config) (o : Options)
          → Adds (Keeps m) (settle m ranged marker_bytes parse_int0 mode explicit first cfg o)
      unfolding settle
      settle-Keeps explicit first cfg o = Adds-bind _ _ (resolve_layout-Keeps o.home) (λ layout.
          Adds-if (not (layout.root =? first.root) && explicit =? []) _ _ (Adds-fail _) (
            Adds-bind _ _ (Adds-lift (listen_of cfg (settled layout o))) (λ listen.
              Adds-bind _ _ (Adds-lift (done (validate (configured cfg (settled layout o) listen))))
                (λ _.
                  Adds-bind _ _
                    (keep_files-Keeps explicit layout (configured cfg (settled layout o) listen))
                    (λ _.
                      Adds-pure
                        ((configured cfg (settled layout o) listen, layout), settled layout o))))))

      -- prepare for any command but install, whatever the files and the environment hold and whatever
      -- the arguments are, writes a file only where a `stat` of that very file has said that it does
      -- not exist, and removes and renames none.
      pub prepare-Keeps :
          (arguments : List Text)
          → Adds (Keeps m) (prepare m ranged marker_bytes parse_int0 arguments mode)
      unfolding prepare migrate
      prepare-Keeps arguments =
          let explicit = pre_argument arguments (codes "--env-file") in
          let flags = parse_flags (λ t. is_some (parse_int0 t)) (prepare_flags mode) arguments in
          Adds-bind _ _ (resolve_layout-Keeps (pre_argument arguments (codes "--home"))) (λ layout.
            Adds-bind _ _ (rw no_install (Adds-pure tt)) (λ _.
              Adds-bind _ _
                (load_environment-Keeps (if explicit =? [] then layout.config else explicit))
                (λ _. Adds-bind _ _ environment_config-Keeps (λ cfg.
                  Adds-bind _ _ (Adds-lift flags) (λ set.
                    settle-Keeps explicit layout cfg
                      (options_of parse_int0 layout explicit cfg set))))))
