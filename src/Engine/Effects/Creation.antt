-- ===== src/Engine/Effects/Creation.antt =====
-- The container that createSandbox makes: its identifier, and what is done to others meanwhile.
use docker_control.Prelude.{ℕ, zero, suc, ◌+◌, ◌*◌, Bool, ◌≡◌, ◌≢◌, refl, ◌∙◌, ltb, arith, sym, ap}
use docker_control.Errors.{Result, ok, err, ◌>>=◌ as ◌>>?◌}
use docker_control.Text.{Text}
use docker_control.Engine.Model.{
  Call, create, delete, start, CreateSpec, CreateBody, Container, Summary, Details, Body,
}
use docker_control.Engine.Monad.{
  Event, called, Trace, World, Sys, pure, lift, record_event, attempt, ignored, continue,
}
use docker_control.Engine.Requests.{received, request, json, empty}
use docker_control.Engine.Sandboxes.{
  second, container, refine, inspect_readiness, now, pause, wait_loop, wait_for_ready,
}
use docker_control.Engine.Lifecycle.{
  create_body, created_item, after_start, start_created, create_sandbox,
}
use docker_control.Engine.Effects.{
  Grows-trans, Grows-continue, Adds, Adds-fail, Adds-bind, Adds-json, Adds-empty, Adds-map,
  Adds-attempt, Adds-ignored, Yields, Yields-any, Yields-pure, Yields-fail, Yields-if, Yields-bind,
}
use docker_control.Engine.Effects.Queries.{IsQuery, wait_for_ready-IsQuery}

id-refine : (c : Container) (d : Details) → (refine c d).id ≡ c.id
unfolding refine
id-refine c d = ground arith

id-container : (item : Summary) → (container item).id ≡ item.id
unfolding container
id-container item = refl

abbrev pub Spares : Text → Event → Type 0
Spares x (called (delete id)) = id ≢ x
Spares x _ = Unit

call-Spares : (x : Text) (c : Call) → IsQuery (called c) → Spares x (called c)
call-Spares x (delete id) h = cc
call-Spares x _ h = tt

pub query-Spares : (x : Text) (e : Event) → IsQuery e → Spares x e
query-Spares x (called c) h = call-Spares x c h
query-Spares x _ h = tt

module _ (w : World) where
  inspect_readiness-id : (item : Summary) → Yields (λ c. c.id ≡ item.id) (inspect_readiness w item)
  unfolding inspect_readiness
  inspect_readiness-id item = Yields-bind _ _ (Yields-any _) (λ d _.
      Yields-pure (refine (container item) d) (id-refine (container item) d ∙ id-container item))

  wait_loop-id :
      (fuel : ℕ) (item : Summary) (deadline : ℕ)
      → Yields (λ c. c.id ≡ item.id) (wait_loop w fuel item deadline)
  unfolding wait_loop
  wait_loop-id zero item deadline = Yields-fail _
  wait_loop-id (suc fuel) item deadline = Yields-bind _ _ (inspect_readiness-id item) (λ c h.
      Yields-if c.ready _ _ (Yields-pure c h) (
        Yields-bind (now w) _ (Yields-any (now w)) (λ t _.
          Yields-if (ltb deadline t) (pure c) _ (Yields-pure c h) (
            Yields-bind (pause w (200 * 1_000_000)) (λ _. wait_loop w fuel item deadline)
              (Yields-any (pause w (200 * 1_000_000))) (λ _ _. wait_loop-id fuel item deadline)))))

  wait_for_ready-id :
      (item : Summary) (timeout : ℕ) → Yields (λ c. c.id ≡ item.id) (wait_for_ready w item timeout)
  unfolding wait_for_ready
  wait_for_ready-id item timeout =
      Yields-bind (now w) _ (Yields-any (now w)) (λ t _. wait_loop-id w.rounds item (t + timeout))

  started-id :
      (item : Summary) (r : Result (Unit {0})) → Yields (λ c. c.id ≡ item.id) (after_start w item r)
  unfolding after_start
  started-id item (ok u) = wait_for_ready-id item (5 * second)
  started-id item (err e) =
      let undo = ignored (empty w (delete item.id)) in
      Yields-bind undo _ (Yields-any undo) (λ u _. Yields-fail e)

  start_created-id : (item : Summary) → Yields (λ c. c.id ≡ item.id) (start_created w item)
  unfolding start_created
  start_created-id item =
      let started = attempt (empty w (start item.id)) in
      Yields-bind started (after_start w item) (Yields-any started) (λ r _. started-id item r)

  -- The identifier that the engine gives to a new container.
  abbrev pub new_id : Trace → Text → CreateBody → Result Text
  new_id t name body = received (w.reply t (create name body)) >>? λ b. b.as_id

  -- The engine gives the identifier `x` to no new container.
  abbrev pub Fresh : Text → Type 0
  Fresh x = (t : Trace) (name : Text) (body : CreateBody) → new_id t name body ≢ ok x

  after_start-Spares :
      (x : Text) (item : Summary) (r : Result (Unit {0}))
      → item.id ≢ x
      → Adds (Spares x) (after_start w item r)
  unfolding after_start
  after_start-Spares x item (ok u) n =
      Adds-map (query-Spares x) (wait_for_ready-IsQuery w item (5 * second))
  after_start-Spares x item (err e) n =
      Adds-bind _ _ (Adds-ignored _ (Adds-empty w (delete item.id) n)) (λ u. Adds-fail e)

  created-ne :
      (x name : Text) (body : CreateBody)
      → Fresh x
      → Yields (λ id. id ≢ x) (json w (create name body) (λ b. b.as_id))
  unfolding json request
  created-ne x name body fresh = record {
    at = λ s id e. λ (same_id : id ≡ x). fresh s.trace name body (
        decoded (received (w.reply s.trace (create name body)))
          (record_event (called (create name body)) s)
        ∙ (e ∙ ap ok same_id));
  }
    where
      decoded :
          (r : Result Body) (s : Sys)
          → (r >>? λ b. b.as_id) ≡ (continue (λ (b : Body). lift b.as_id) (r, s)).0
      decoded (ok b) s = refl
      decoded (err e) s = refl

  start_created-Spares :
      (x : Text) (item : Summary) → item.id ≢ x → Adds (Spares x) (start_created w item)
  unfolding start_created
  start_created-Spares x item n =
      Adds-bind _ _ (Adds-attempt _ (Adds-empty w (start item.id) tt))
        (λ r. after_start-Spares x item r n)

  module _ (x : Text) (fresh : Fresh x) (spec : CreateSpec) (runtime logical name : Text)
      (restore : Bool) where
    -- createSandbox deletes no container but the one that it has created.
    pub create_sandbox-Spares : Adds (Spares x) (create_sandbox w spec runtime logical name restore)
    unfolding create_sandbox
    create_sandbox-Spares = record {
      at = λ s.
          let body = create_body spec runtime logical restore in
          let m = json w (create name body) (λ b. b.as_id) in
          let (r, s') = m s in
          Grows-trans ((Adds-json w (create name body) (λ b. b.as_id) tt).at s) (
            Grows-continue _ r s' (λ id e.
              (start_created-Spares x (created_item spec runtime logical name id)
                  ((created-ne x name body fresh).at s id e)).at
                s'));
    }

    pub create_sandbox-ne :
        Yields (λ c. c.id ≢ x) (create_sandbox w spec runtime logical name restore)
    unfolding create_sandbox
    create_sandbox-ne =
        Yields-bind _ _ (created-ne x name (create_body spec runtime logical restore) fresh)
          (λ id n. record {
            at = λ s c e. λ (same_id : c.id ≡ x).
                let item = created_item spec runtime logical name id in
                n (sym ((start_created-id item).at s c e) ∙ same_id);
          })
