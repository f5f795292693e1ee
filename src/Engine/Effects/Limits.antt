-- ===== src/Engine/Effects/Limits.antt =====
-- The limits on sandboxes and snapshots of internal/controller/docker.go.
use docker_control.Prelude.{
  ℕ, pos, ◌≤◌, ◌*◌, ap, Bool, true, false, List, ◌++◌, ◌≡◌, refl, leb, length, arith, ◌=?◌,
  if◌then◌else◌,
}
use docker_control.Errors.{Result, ok, err, err_snapshot_limit, wrap_before}
use docker_control.Text.{Text, codes, itoa}
use docker_control.Types.Keys.{valid_key, valid_snapshot_name}
use docker_control.Engine.Model.{
  Call, create, start, delete, CreateSpec, Container, Summary, Snapshot,
}
use docker_control.Engine.Monad.{Event, called, World, Sys, pure, attempt}
use docker_control.Engine.Sandboxes.{second, container, wait_for_ready, find}
use docker_control.Engine.Images.{prepare_image}
use docker_control.Engine.Requests.{empty}
use docker_control.Engine.Lifecycle.{
  list, create_new, keep_running, replace_prepared, replace, on_found, ensure,
}
use docker_control.Engine.Snapshots.{list_snapshots, create_snapshot}
use docker_control.Engine.Effects.{
  Grows, same, Grows-trans, Grows-map, Grows-continue, Adds, Adds-pure, Adds-fail, Adds-if,
  Adds-bind, Adds-empty, Adds-map, Adds-attempt, Yields, Yields-any, Yields-pure, Yields-fail,
  Yields-if, Yields-bind,
}
use docker_control.Engine.Effects.Queries.{
  is_get, IsQuery, find-IsQuery, list-IsQuery, wait_for_ready-IsQuery,
}
use docker_control.Engine.Effects.Preparation.{IsPreparation, prepare_image-IsPreparation}
use docker_control.Engine.Effects.Restoring.{list_snapshots-IsQuery}

-- An event that creates no container.
abbrev pub Uncreated : Event → Type 0
Uncreated (called (create _ _)) = ⊥
Uncreated _ = Unit

call-Uncreated : (c : Call) → is_get c ≡ true → Uncreated (called c)
call-Uncreated (create name body) h = cc
call-Uncreated _ h = tt

query-Uncreated : (e : Event) → IsQuery e → Uncreated e
query-Uncreated (called c) h = call-Uncreated c h
query-Uncreated _ h = tt

preparation-Uncreated : (e : Event) → IsPreparation e → Uncreated e
preparation-Uncreated (called c) h = call-Uncreated c h
preparation-Uncreated _ h = tt

module _ (w : World) where
  -- CreateSnapshot makes none where the sandbox has as many as it may have: it has only asked the
  -- Docker engine for the list, and fails with ErrSnapshotLimit.
  pub create_snapshot-limit :
      (key name : Text) (max_snapshots : ℕ) (existing : List Snapshot) (s : Sys)
      → valid_key key ≡ true
      → valid_snapshot_name name ≡ true
      → (list_snapshots w key s).0 ≡ ok existing
      → max_snapshots ≤ length existing
      → ((create_snapshot w key name max_snapshots s).0
          ≡ err (
              wrap_before err_snapshot_limit
                (codes ": " ++ (itoa max_snapshots ++ codes " per sandbox"))))
        × Grows IsQuery s.trace (create_snapshot w key name max_snapshots s).1.trace
  unfolding create_snapshot
  create_snapshot-limit key name max_snapshots existing s good fits listed full =
      let over : leb max_snapshots (length existing) ≡ true = ground arith in
      let asked = (list_snapshots-IsQuery w key).at s in
      rw (good, fits) (rw listed (rw over (refl, asked)))

  -- Whenever all containers are listed, there are as many as may be.
  abbrev pub IsFull : ℕ → Type 0
  IsFull n = (s : Sys) (managed : List Container) → (list w s).0 ≡ ok managed → n ≤ length managed

  module _ (spec : CreateSpec) (pull_missing : Bool) (n : ℕ) (full : IsFull n) where
    over :
        (s : Sys) (managed : List Container)
        → (list w s).0 ≡ ok managed
        → leb n (length managed) ≡ true
    over s managed e = let h = full s managed e in ground arith

    create_new-Uncreated : Adds Uncreated (create_new w spec pull_missing (pos n))
    unfolding create_new
    create_new-Uncreated = record {
      at = λ s.
          let (r, s') = list w s in
          Grows-trans (Grows-map query-Uncreated ((list-IsQuery w).at s))
            (Grows-continue _ (list w s).0 (list w s).1 (λ managed e. rw (over s managed e) same));
    }

    create_new-old : Yields (λ p. p.1 ≡ false) (create_new w spec pull_missing (pos n))
    unfolding create_new
    create_new-old = record { at = λ s a. fails s (list w s) refl a }
      where
        fails :
            (s : Sys) (p : Result (List Container) × Sys)
            → list w s ≡ p
            → (a : Container × Bool) → (create_new w spec pull_missing (pos n) s).0 ≡ ok a
            → a.1 ≡ false
        fails s (ok managed, s') e a = rw (e, over s managed (ap (λ p. p.0) e)) (λ k. cc)
        fails s (err e', s') e a = rw e (λ k. cc)

    keep_running-Uncreated : (item : Summary) → Adds Uncreated (keep_running w item)
    unfolding keep_running
    keep_running-Uncreated item =
        Adds-bind _ _ (Adds-if _ _ _ (Adds-pure tt) (Adds-empty w (start item.id) tt)) (λ u.
          Adds-bind _ _ (Adds-map query-Uncreated (wait_for_ready-IsQuery w _ (5 * second)))
            (λ c. Adds-pure (c, false)))

    replace_prepared-Uncreated :
        (item : Summary) (ready : Bool)
        → Adds Uncreated (replace_prepared w spec pull_missing (pos n) item ready)
    unfolding replace_prepared
    replace_prepared-Uncreated item false = Adds-fail _
    replace_prepared-Uncreated item true =
        Adds-bind _ _ (Adds-empty w (delete item.id) tt) (λ u. create_new-Uncreated)

    on_found-Uncreated :
        (r : Result Summary) → Adds Uncreated (on_found w spec pull_missing (pos n) r)
    unfolding on_found replace
    on_found-Uncreated (ok item) = Adds-if _ _ _ (keep_running-Uncreated item) (
        Adds-bind _ _
          (Adds-map preparation-Uncreated (prepare_image-IsPreparation w spec.image pull_missing))
          (replace_prepared-Uncreated item))
    on_found-Uncreated (err e) = Adds-if _ _ _ create_new-Uncreated (Adds-fail e)

    keep_running-old : (item : Summary) → Yields (λ p. p.1 ≡ false) (keep_running w item)
    unfolding keep_running
    keep_running-old item =
        Yields-bind (if item.state =? codes "running" then pure tt else empty w (start item.id)) _
          (Yields-any _)
          (λ u _.
            Yields-bind (wait_for_ready w (record item { state = codes "running" }) (5 * second))
              (λ c. pure (c, false)) (Yields-any _) (λ c _. Yields-pure (c, false) refl))

    replace_prepared-old :
        (item : Summary) (ready : Bool)
        → Yields (λ p. p.1 ≡ false) (replace_prepared w spec pull_missing (pos n) item ready)
    unfolding replace_prepared
    replace_prepared-old item false = Yields-fail _
    replace_prepared-old item true =
        Yields-bind (empty w (delete item.id)) _ (Yields-any _) (λ u _. create_new-old)

    on_found-old :
        (r : Result Summary) → Yields (λ p. p.1 ≡ false) (on_found w spec pull_missing (pos n) r)
    unfolding on_found replace
    on_found-old (ok item) =
        Yields-if ((container item).image =? spec.image) _ _ (keep_running-old item) (
          Yields-bind (prepare_image w spec.image pull_missing) _ (Yields-any _)
            (λ ready _. replace_prepared-old item ready))
    on_found-old (err e) = Yields-if _ _ _ create_new-old (Yields-fail e)

    -- While as many containers as may be are listed, whenever they are, Ensure creates none, whether
    -- the key has a sandbox, one of another image or none, and it returns no new one.
    pub ensure-Uncreated :
        Adds Uncreated (ensure w spec pull_missing (pos n))
        × Yields (λ p. p.1 ≡ false) (ensure w spec pull_missing (pos n))
    unfolding ensure
    ensure-Uncreated = (
      Adds-bind _ _ (Adds-attempt _ (Adds-map query-Uncreated (find-IsQuery w spec.key)))
          on_found-Uncreated,
      Yields-bind (attempt (find w spec.key)) _ (Yields-any _) (λ r _. on_found-old r),
    )
