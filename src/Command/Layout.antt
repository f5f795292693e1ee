-- ===== src/Command/Layout.antt =====
-- Layout and ResolveLayout of internal/command/command.go.
use docker_control.Prelude.{[], ◌∷◌, ◌=?◌, if◌then◌else◌}
use docker_control.Text.{Text, codes, trim_space, clean, join_paths, is_abs}
use docker_control.Command.Machine.{Machine, P, pure, wd, ◌>>=◌}

pub record Layout : Type 0 where
  pub root : Text
  pub state : Text
  pub bin : Text
  pub config : Text
  pub unit : Text
  pub runtime : Text
  pub marker : Text

-- The layout of a root
unfoldable pub layout_of : Text → Layout
layout_of root =
    let state = join_paths (root ∷ codes ".docker-control" ∷ []) in
    record {
      root = root;
      state = state;
      bin = join_paths (state ∷ codes "bin" ∷ codes "docker-control" ∷ []);
      config = join_paths (state ∷ codes "docker-control.env" ∷ []);
      unit = join_paths (state ∷ codes "docker-control.service" ∷ []);
      runtime = join_paths (state ∷ codes "runtime.json" ∷ []);
      marker = join_paths (state ∷ codes "installation.json" ∷ []);
    }

module _ (m : Machine) where
  -- filepath.Abs
  abbrev pub absolute : Text → P Text
  absolute path =
      if is_abs path
      then pure (clean path)
      else (do here ← wd m; pure (join_paths (here ∷ path ∷ [])))

  unfoldable pub resolve_layout : Text → P Layout
  unfolding layout_of
  resolve_layout home = do
    home' ← if trim_space home =? [] then wd m else pure home
    root ← absolute home'
    pure (layout_of (clean root))
