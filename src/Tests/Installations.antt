-- ===== src/Tests/Installations.antt =====
-- The command line on concrete machines.
use docker_control.Prelude.{
  ℕ, ◌≡◌, refl, false, true, List, [], ◌∷◌, ◌++◌, none, inl, Grows, arith, All, ◌||◌, ◌≢◌, length,
  ltb, ltb→lt, ◌=?◌, some,
}
use docker_control.Errors.{Error, Kind, Result, ok, err}
use docker_control.Text.{
  Text, codes, split, parse_int, trim_space, has_prefix, contains_byte, itoa, itoa_int,
}
use docker_control.Text.Lacks.{Lacks}
use docker_control.Types.Config.Environment.{config_from_env}
use docker_control.EnvFile.{
  Environment, load_lines, is_set, assignment, trim_quotes, quotes_off_front, quotes_off_end,
}
use docker_control.EnvFile.Scanning.{drop_return, load_contents}
use docker_control.Engine.Model.{failed}
use docker_control.Engine.Monad.{World}
use docker_control.Engine.Requests.{json}
use docker_control.Engine.Lifecycle.{list}
use docker_control.Command.Machine.{Log, Machine, Proc, stat}
use docker_control.Command.Layout.{Layout, layout_of}
use docker_control.Command.Removal.{Marker, marker_kind}
use docker_control.Command.LocalFiles.{whole_seconds, local_settings, local_content}
use docker_control.Command.LocalFiles.Lines.{IsLine}
use docker_control.Command.Uninstall.Spares.{Spares}
use docker_control.Command.LocalFiles.ReadBack.{IsStorable, IsSame, load_contents-local_content}
use docker_control.Command.Prepare.{server_mode, load_env_file, prepare}
use docker_control.Command.Prepare.Keeps.{Keeps, prepare-Keeps}
use docker_control.Command.RuntimeFile.{RuntimeInfo}
use docker_control.Command.Uninstall.{clean_managed_sandboxes, retained, stop_service, uninstall}
use docker_control.Command.Uninstall.Guarded.{Permits, uninstall-Permits, uninstall-retained}
use docker_control.Command.Runs.{Status, run}
use docker_control.Command.Runs.Dashes.{run-dashed}
use docker_control.Command.Effects.{Adds}
use docker_control.Tests.Values.{config}
use docker_control.Tests.Engines.{no_answer, world}

-- Every act succeeds, and every file is empty.
abbrev willing : Machine
willing = record {
  fails = λ log a. none;
  contents = λ log path. ok [];
  link = λ log path. ok (codes "/srv/.docker-control/docker-control.service");
  working_dir = λ log. ok (codes "/srv");
  executable = ok (codes "/usr/bin/docker-control");
  listener = λ log address. ok (record { ip = codes "::"; port = 16544 });
  output = λ log words. (codes "active", none);
  random_bytes = λ log n. ok (1 ∷ 2 ∷ 3 ∷ []);
}

abbrev layout : Layout
layout = layout_of (codes "/srv")

abbrev a_marker : List ℕ → Result Marker
a_marker payload = ok (record { kind = marker_kind; root = codes "/srv/" })

-- No Docker engine answers.
abbrev no_engine : Text → World
no_engine socket = world (λ t c. failed no_answer) (λ t. 0)

abbrev began : Proc
began = record { log = []; env = []; docker = record { trace = []; pulls = [] } }

uninstall-Permits_example :
    Adds
      (Permits willing a_marker layout false)
      (uninstall willing no_engine a_marker true layout true false false)
uninstall-Permits_example =
    uninstall-Permits willing a_marker layout no_engine true true false false

no_engine_fails :
    (clean_managed_sandboxes willing no_engine layout
      (stop_service willing no_engine a_marker true layout began).1).0
    ≡ err no_answer
unfolding clean_managed_sandboxes load_env_file load_contents load_lines split ◌=?◌ list json
no_engine_fails = refl

uninstall-retained_example :
    ((uninstall willing no_engine a_marker true layout false false false began).0
      ≡ err (retained no_answer))
    × Grows Spares []
        (uninstall willing no_engine a_marker true layout false false false began).1.log
uninstall-retained_example =
    uninstall-retained willing a_marker layout no_engine true false began no_answer no_engine_fails

abbrev in_order : Log → List (Text × Text) → List (Text × Text)
in_order log pairs = pairs

abbrev marker_json : Log → Text → List ℕ
marker_json log root = codes "{\"root\": \"" ++ (root ++ codes "\"}")

-- No file exists.
abbrev gone : Error
gone = record { kind = Kind.not_exist; text = codes "file does not exist" }

abbrev no_files : Machine
no_files = record willing { fails = λ log a. elim a [ stat _ ↦ some gone | _ ↦ none ] }

prepare-Keeps_example :
    Adds (Keeps no_files) (
      prepare no_files in_order marker_json parse_int
        (codes "--port" ∷ codes "80" ∷ [])
        server_mode)
prepare-Keeps_example =
    prepare-Keeps no_files in_order marker_json parse_int server_mode refl
      (codes "--port" ∷ codes "80" ∷ [])

abbrev info_json : RuntimeInfo → List ℕ
info_json info = info.listen_address

abbrev status_json : Status → Text
status_json s = s.home

run-dashed_example :
    (run willing no_engine in_order marker_json parse_int info_json status_json
      (λ payload. true)
      a_marker
      true
      4711
      (codes "3.1")
      (codes "--version" ∷ [])
      began).0
    ≡ ok 1
run-dashed_example =
    run-dashed willing no_engine in_order marker_json parse_int info_json status_json
      (λ payload. true) a_marker true 4711 (codes "3.1") (codes "--version") [] began (inl refl)

Lacks-of : (b : ℕ) (s : Text) → contains_byte s b ≡ false → Lacks b s
unfolding contains_byte
Lacks-of b [] h = tt
Lacks-of b (c ∷ s) h = (ground arith, Lacks-of b s (ground arith))

pub fits :
    (pair : Text × Text)
    → contains_byte (assignment pair.0 pair.1) b'\n' ≡ false
    → drop_return (assignment pair.0 pair.1) ≡ assignment pair.0 pair.1
    → ltb (length (assignment pair.0 pair.1)) 65536 ≡ true
    → pair.0 ≢ []
    → contains_byte pair.0 b'=' ≡ false
    → has_prefix (assignment pair.0 pair.1) (codes "#") ≡ false
    → (contains_byte pair.0 0 || contains_byte pair.1 0) ≡ false
    → trim_space pair.0 ≡ pair.0
    → trim_space pair.1 ≡ pair.1
    → trim_space (assignment pair.0 pair.1) ≡ assignment pair.0 pair.1
    → trim_quotes pair.1 ≡ pair.1
    → IsLine pair
fits pair no_break kept short named no_sign no_comment zero_free name value line unquoted = record {
  one = Lacks-of b'\n' (assignment pair.0 pair.1) no_break;
  kept = kept;
  short = ltb→lt _ _ short;
  writable = record {
    named = named;
    no_sign = no_sign;
    no_comment = no_comment;
    zero_free = zero_free;
    whole_name = name;
    whole_value = value;
    whole_line = line;
    unquoted = unquoted;
  };
}

settings_fit : All IsLine (local_settings config)
unfolding local_settings itoa_int itoa contains_byte drop_return trim_space quotes_off_front
    quotes_off_end whole_seconds
settings_fit = (
  fits _ refl refl refl (λ e. cc) refl refl refl refl refl refl refl,
  (
    fits _ refl refl refl (λ e. cc) refl refl refl refl refl refl refl,
    (
      fits _ refl refl refl (λ e. cc) refl refl refl refl refl refl refl,
      (
        fits _ refl refl refl (λ e. cc) refl refl refl refl refl refl refl,
        (
          fits _ refl refl refl (λ e. cc) refl refl refl refl refl refl refl,
          (
            fits _ refl refl refl (λ e. cc) refl refl refl refl refl refl refl,
            (
              fits _ refl refl refl (λ e. cc) refl refl refl refl refl refl refl,
              (
                fits _ refl refl refl (λ e. cc) refl refl refl refl refl refl refl,
                (
                  fits _ refl refl refl (λ e. cc) refl refl refl refl refl refl refl,
                  (
                    fits _ refl refl refl (λ e. cc) refl refl refl refl refl refl refl,
                    (
                      fits _ refl refl refl (λ e. cc) refl refl refl refl refl refl refl,
                      (
                        fits _ refl refl refl (λ e. cc) refl refl refl refl refl refl refl,
                        (
                          fits _ refl refl refl (λ e. cc) refl refl refl refl refl refl refl,
                          (fits _ refl refl refl (λ e. cc) refl refl refl refl refl refl refl, tt),
                        ),
                      ),
                    ),
                  ),
                ),
              ),
            ),
          ),
        ),
      ),
    ),
  ),
)

config-IsStorable : IsStorable config
config-IsStorable = record {
  lines = settings_fit;
  bearer_token_given = λ e. cc;
  listen_address_given = λ e. cc;
  docker_socket_given = λ e. cc;
  public_endpoint_given = λ e. cc;
  image_given = λ e. cc;
  container_name_prefix_given = λ e. cc;
  sandbox_network_given = λ e. cc;
  port_fallbacks_counts = omega arith;
  max_terminal_windows_counts = omega arith;
  max_containers_counts = omega arith;
  terminal_idle_timeout_whole = (refl, omega arith);
  execution_timeout_whole = (refl, omega arith);
}

abbrev found_set : Environment
found_set = (codes "PATH", codes "/bin") ∷ []

none_set : All (λ pair. is_set pair.0 found_set ≡ false) (local_settings config)
unfolding local_settings is_set ◌=?◌
none_set = (
  refl,
  (
    refl,
    (
      refl,
      (refl, (refl, (refl, (refl, (refl, (refl, (refl, (refl, (refl, (refl, (refl, tt))))))))))),
    ),
  ),
)

load_contents-local_content_example :
    ((load_contents (local_content config) found_set).0 ≡ none)
    × IsSame config (config_from_env (load_contents (local_content config) found_set).1)
load_contents-local_content_example =
    load_contents-local_content config found_set config-IsStorable none_set
