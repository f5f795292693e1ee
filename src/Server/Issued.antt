-- ===== src/Server/Issued.antt =====
-- The tokens of sandboxes, from newSandboxSpec of internal/controller/server.go by the labels of
-- createSandbox to VerifyControlledToken of internal/controller/docker.go.
use docker_control.Prelude.{
  ℕ, ◌≡◌, refl, sym, ap, ◌∙◌, Bool, true, false, List, [], ◌=?◌, =?_sound, =?_refl, Bool-cases, inl,
  inr, arith,
}
use mathlib.Core.Path.{subst}
use docker_control.Errors.{Result, ok, err}
use docker_control.Text.{Text}
use docker_control.Types.Config.{Config}
use docker_control.Types.Keys.{valid_key, secure_equal}
use docker_control.Engine.Model.{
  CreateSpec, Summary, label, managed_label, key_label, endpoint_label, health_label, token_label,
  image_label, legacy_token_label,
}
use docker_control.Engine.Monad.{World, Sys}
use docker_control.Engine.Sandboxes.{or_else, find}
use docker_control.Engine.Lifecycle.{create_body}
use docker_control.Engine.Snapshots.{random}
use docker_control.Engine.Tokens.{controlled_token_hash, stored_hash, verify_controlled_token}
use docker_control.Server.{new_sandbox_spec, with_token}

pub secure_equal_refl : (s : Text) → secure_equal s s ≡ true
unfolding secure_equal
secure_equal_refl s = ground (arith, =?_refl s)

or_else_nil : (s : Text) → or_else s [] ≡ s
or_else_nil s = elim (Bool-cases (s =? [])) [
  | inl empty ↦ rw empty (sym (=?_sound s [] empty))
  | inr given ↦ rw given refl
]

-- The labels that createSandbox writes hold the hash of its spec.
stored_hash-create_body :
    (spec : CreateSpec) (runtime logical : Text) (restore : Bool) (item : Summary)
    → item.labels ≡ (create_body spec runtime logical restore).labels
    → stored_hash item ≡ spec.controlled_token_sha256
unfolding create_body label ◌=?◌ managed_label key_label endpoint_label health_label token_label
    image_label legacy_token_label
stored_hash-create_body spec runtime logical restore item e =
    ap (λ l. or_else (label token_label l) (label legacy_token_label l)) e
    ∙ or_else_nil spec.controlled_token_sha256

module _ (w : World) (sha256 : List ℕ → List ℕ) (cfg : Config) (key image : Text) where
  abbrev IsHashed : CreateSpec × Text → Type 0
  IsHashed (spec, token) = spec.controlled_token_sha256 ≡ controlled_token_hash sha256 token

  ok-injective : (p q : CreateSpec × Text) → ok p ≡ ok q → p ≡ q
  ok-injective p q e = cc

  with_token-IsHashed :
      (drawn : Result (List ℕ)) (p : CreateSpec × Text)
      → with_token w sha256 cfg key image drawn ≡ ok p
      → IsHashed p
  with_token-IsHashed (ok bytes) p e = subst IsHashed (ok-injective _ p e) refl
  with_token-IsHashed (err e') p e = cc

  new_sandbox_spec-IsHashed :
      (s : Sys) (p : CreateSpec × Text)
      → (new_sandbox_spec w sha256 cfg key image s).0 ≡ ok p
      → IsHashed p
  unfolding new_sandbox_spec random
  new_sandbox_spec-IsHashed s p = go (valid_key key) refl
    where
      go :
          (valid : Bool)
          → valid_key key ≡ valid
          → (new_sandbox_spec w sha256 cfg key image s).0 ≡ ok p
          → IsHashed p
      go true v = rw v (with_token-IsHashed (w.random s.trace 32) p)
      go false v = rw v (λ e. cc)

  -- The token that newSandboxSpec draws is the one that VerifyControlledToken accepts, where the
  -- engine finds a container with the labels that createSandbox has given it: any given token is
  -- accepted exactly if its hash is that of the token drawn, and so the token itself is.
  pub verify_controlled_token-new_sandbox_spec :
      (s s' : Sys) (spec : CreateSpec) (token given runtime logical : Text) (restore : Bool)
      (item : Summary)
      → (new_sandbox_spec w sha256 cfg key image s).0 ≡ ok (spec, token)
      → item.labels ≡ (create_body spec runtime logical restore).labels
      → (find w key s').0 ≡ ok item
      → ((verify_controlled_token w sha256 key token s').0 ≡ ok true)
        × ((verify_controlled_token w sha256 key given s').0
            ≡ ok (
                secure_equal
                  (controlled_token_hash sha256 token)
                  (controlled_token_hash sha256 given)))
  unfolding verify_controlled_token
  verify_controlled_token-new_sandbox_spec s s' spec token given runtime logical restore item drawn
        labels found =
      let stored =
        stored_hash-create_body spec runtime logical restore item labels
        ∙ new_sandbox_spec-IsHashed s (spec, token) drawn in
      (
        rw (found, stored, secure_equal_refl (controlled_token_hash sha256 token)) refl,
        rw (found, stored) refl,
      )
