-- ===== src/Engine/Effects/Replacement.antt =====
-- When Ensure of internal/controller/docker.go gives up the sandbox that is there.
use docker_control.Prelude.{
  ℤ, ◌*◌, Bool, true, false, ◌≡◌, ◌≢◌, refl, ◌⊎◌, inl, inr, ◌=?◌, =?_iff, arith, Bool-cases,
}
use docker_control.Errors.{Result, ok, err}
use docker_control.Text.{Text, codes}
use docker_control.Engine.Model.{Call, delete, create, start, CreateSpec, Summary}
use docker_control.Engine.Monad.{Event, called, World, Sys, continue}
use docker_control.Engine.Sandboxes.{second, container, find}
use docker_control.Engine.Images.{prepare_image}
use docker_control.Engine.Lifecycle.{keep_running, replace_prepared, replace, on_found, ensure}
use docker_control.Engine.Effects.{
  Grows, same, Grows-trans, Grows-map, Adds, Adds-pure, Adds-if, Adds-bind, Adds-empty, Adds-map,
}
use docker_control.Engine.Effects.Preparation.{IsPreparation, prepare_image-IsPreparation}
use docker_control.Engine.Effects.Queries.{IsQuery, find-IsQuery, wait_for_ready-IsQuery}

-- An event that neither deletes a container nor creates one.
abbrev pub Preserves : Event → Type 0
Preserves (called (delete _)) = ⊥
Preserves (called (create _ _)) = ⊥
Preserves _ = Unit

call-Preserves : (c : Call) → IsQuery (called c) → Preserves (called c)
call-Preserves (delete id) h = cc
call-Preserves (create name body) h = cc
call-Preserves _ h = tt

query-Preserves : (e : Event) → IsQuery e → Preserves e
query-Preserves (called c) h = call-Preserves c h
query-Preserves _ h = tt

preparation-Preserves : (e : Event) → IsPreparation e → Preserves e
preparation-Preserves (called c) h = call-Preserves c h
preparation-Preserves _ h = tt

pub prepare_image-Preserves :
    (w : World) (image : Text) (pull : Bool) → Adds Preserves (prepare_image w image pull)
prepare_image-Preserves w image pull =
    Adds-map preparation-Preserves (prepare_image-IsPreparation w image pull)

module _ (w : World) (spec : CreateSpec) (pull_missing : Bool) (max_containers : ℤ) where
  keep_running-Preserves : (item : Summary) → Adds Preserves (keep_running w item)
  unfolding keep_running
  keep_running-Preserves item =
      Adds-bind _ _
        (Adds-if (item.state =? codes "running") _ _ (Adds-pure tt)
          (Adds-empty w (start item.id) tt))
        (λ _.
          Adds-bind _ _
            (Adds-map query-Preserves
              (wait_for_ready-IsQuery w (record item { state = codes "running" }) (5 * second)))
            (λ c. Adds-pure (c, false)))

  unready-Preserves :
      (item : Summary) (r : Result Bool) (s : Sys)
      → r ≢ ok true
      → Grows Preserves s.trace
          (continue (replace_prepared w spec pull_missing max_containers item) (r, s)).1.trace
  unfolding replace_prepared
  unready-Preserves item (err e) s h = same
  unready-Preserves item (ok false) s h = same
  unready-Preserves item (ok true) s h = absurd (h refl)

  replace-Preserves :
      (item : Summary) (s : Sys)
      → (prepare_image w spec.image pull_missing s).0 ≢ ok true
      → Grows Preserves s.trace (replace w spec pull_missing max_containers item s).1.trace
  unfolding replace
  replace-Preserves item s h =
      let (r, s') = prepare_image w spec.image pull_missing s in
      Grows-trans ((prepare_image-Preserves w spec.image pull_missing).at s)
        (unready-Preserves item r s' h)

  on_found-Preserves :
      (item : Summary) (s : Sys)
      → ((container item).image ≡ spec.image)
        ⊎ ((prepare_image w spec.image pull_missing s).0 ≢ ok true)
      → Grows Preserves s.trace (on_found w spec pull_missing max_containers (ok item) s).1.trace
  unfolding on_found
  on_found-Preserves item s h = elim (Bool-cases ((container item).image =? spec.image)) [
    | inl same_image ↦ rw same_image ((keep_running-Preserves item).at s)
    | inr other ↦ rw other (
        replace-Preserves item s (elim h [
          | inl e ↦ absurd (ground (arith, =?_iff (container item).image spec.image))
          | inr k ↦ k
        ]))
  ]

  -- Ensure keeps the sandbox that it finds, neither deleting a container nor creating one, if that
  -- has the wanted image, and also if the wanted image is not ready.
  pub ensure-Preserves :
      (item : Summary) (s : Sys)
      → (find w spec.key s).0 ≡ ok item
      → ((container item).image ≡ spec.image)
        ⊎ ((prepare_image w spec.image pull_missing (find w spec.key s).1).0 ≢ ok true)
      → Grows Preserves s.trace (ensure w spec pull_missing max_containers s).1.trace
  unfolding ensure
  ensure-Preserves item s found h =
      Grows-trans (Grows-map query-Preserves ((find-IsQuery w spec.key).at s))
        (rw found (on_found-Preserves item (find w spec.key s).1 h))
