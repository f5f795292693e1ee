-- ===== src/Server/Access.antt =====
-- Who reaches the handlers of internal/controller/server.go, and with which keys.
use docker_control.Prelude.{
  true, false, ◌≡◌, ◌≢◌, refl, ap, ◌∙◌, ◌⊎◌, inl, inr, [], ◌∷◌, ◌++◌, Option, none, some, arith,
  =?_sound, Bool-cases,
}
use docker_control.Errors.{ok}
use docker_control.Text.{Text, codes, cut_prefix, trim_prefix}
use docker_control.Types.Config.{Config}
use docker_control.Types.Keys.{secure_equal}
use docker_control.Engine.Monad.{Sys, M}
use docker_control.Http.{Response, Request, write_error}
use docker_control.Server.{is_public, serve_http}

-- What is cut off in front is the prefix.
cut_prefix_sound : (s p rest : Text) → cut_prefix s p ≡ some rest → s ≡ p ++ rest
cut_prefix_sound s [] rest h = ground arith
cut_prefix_sound [] (d ∷ p) rest h = cc
cut_prefix_sound (c ∷ s) (d ∷ p) rest h = ground (arith, cut_prefix_sound s p rest)

trim_prefix-cases : (s p : Text) → (s ≡ trim_prefix s p) ⊎ (s ≡ p ++ trim_prefix s p)
trim_prefix-cases s p = go (cut_prefix s p) refl
  where
    go : (o : Option Text) → cut_prefix s p ≡ o → (s ≡ trim_prefix s p) ⊎ (s ≡ p ++ trim_prefix s p)
    go none e = inl (rw (trim_prefix, e) refl)
    go (some rest) e = inr (rw (trim_prefix, e) (cut_prefix_sound s p rest e))

pub secure_equal_sound : (s t : Text) → secure_equal s t ≡ true → s ≡ t
unfolding secure_equal
secure_equal_sound s t h = ground (arith, =?_sound s t)

refused_token :
    (token authorization : Text)
    → authorization ≢ token
    → authorization ≢ codes "Bearer " ++ token
    → secure_equal (trim_prefix authorization (codes "Bearer ")) token ≡ false
refused_token token authorization h k =
    elim (Bool-cases (secure_equal (trim_prefix authorization (codes "Bearer ")) token)) [
      | inr differs ↦ differs
      | inl same ↦
          let e = secure_equal_sound _ token same in
          absurd (elim (trim_prefix-cases authorization (codes "Bearer ")) [
            | inl bare ↦ h (bare ∙ e)
            | inr full ↦ k (full ∙ ap (λ t. codes "Bearer " ++ t) e)
          ])
    ]

-- A request whose path is not public is answered with 401, and reaches no handler, unless its
-- Authorization header is the configured token, alone or behind "Bearer ".
pub serve_http_gate :
    {A : Type 0} (cfg : Config) (responded : Response → A) (mux : Request → M A) (r : Request)
    (s : Sys)
    → is_public r.path ≡ false
    → r.authorization ≢ cfg.bearer_token
    → r.authorization ≢ codes "Bearer " ++ cfg.bearer_token
    → serve_http cfg responded mux r s
      ≡ (ok (responded (write_error 401 (codes "valid bearer token required"))), s)
unfolding serve_http
serve_http_gate cfg responded mux r s inner h k =
    rw (inner, refused_token cfg.bearer_token r.authorization h k) refl
