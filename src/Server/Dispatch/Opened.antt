-- ===== src/Server/Dispatch/Opened.antt =====
-- The routes of NewServer of internal/controller/server.go that ServeHTTP lets through without the bearer
-- token.
use docker_control.Prelude.{
  ◌≡◌, refl, sym, arith, Bool, true, false, List, [], ◌∷◌, Option, none, some, ◌=?◌, =?_sound, ◌⊎◌,
  inl, inr, All,
}
use mathlib.Core.Path.{subst}
use docker_control.Text.{Text, codes, join}
use docker_control.Server.{is_public}
use docker_control.Server.Routes.{
  Handler, health, capabilities, open_api_spec, controlled_endpoint, controlled_terminal, Routed,
  found, not_allowed, not_found, Part, word, captured, Pattern, chosen, handled, no_value,
  one_value, under, takes_method, match_parts, route_in, append_patterns, first_patterns,
  sandbox_patterns, container_patterns, controlled_patterns, patterns, route,
}
use docker_control.Server.Dispatch.{url_path}

-- The handlers that need no bearer token
abbrev pub IsOpen : Handler → Type 0
IsOpen health = Unit
IsOpen capabilities = Unit
IsOpen open_api_spec = Unit
IsOpen (controlled_endpoint _) = Unit
IsOpen (controlled_terminal _) = Unit
IsOpen _ = ⊥

-- Parts of a path /v1/<resource> or below it
abbrev IsUnder : Text → List Text → Type 0
IsUnder resource (a ∷ b ∷ rest) = (codes "v1" ≡ a) × (resource ≡ b)
IsUnder resource _ = ⊥

abbrev Leads : List Text → Handler → Type 0
Leads parts h = IsOpen h ⊎ (IsUnder (codes "sandboxes") parts ⊎ IsUnder (codes "containers") parts)

-- Where a pattern's handler is one that needs the token, the pattern's path is not public.
record IsSound (p : Pattern) : Type 0 where
  at :
      (parts : List Text) (h : Handler)
      → handled p.handler (match_parts p.parts parts) ≡ some h
      → Leads parts h

chosen_found :
    (fits : Bool) (o : Option Handler) (rest : Routed) (h : Handler)
    → chosen fits o rest ≡ found h
    → (o ≡ some h) ⊎ (rest ≡ found h)
chosen_found fits none rest h e = inr e
chosen_found true (some g) rest h e = inl cc
chosen_found false (some g) (found k) h e = inr e
chosen_found false (some g) not_allowed h e = inr e
chosen_found false (some g) not_found h e = cc

route_in-Leads :
    (ps : List Pattern)
    → All IsSound ps
    → (method : Text) (parts : List Text) (h : Handler) → route_in ps method parts ≡ found h
    → Leads parts h
unfolding route_in
route_in-Leads [] sound method parts h e = cc
route_in-Leads (p ∷ ps) (sound, rest) method parts h e =
    elim (chosen_found (takes_method p.method method)
      (handled p.handler (match_parts p.parts parts)) (route_in ps method parts) h e) [
        | inl here ↦ sound.at parts h here
        | inr there ↦ route_in-Leads ps rest method parts h there
      ]

All-append_patterns :
    (ps qs : List Pattern) → All IsSound ps → All IsSound qs → All IsSound (append_patterns ps qs)
All-append_patterns [] qs h k = k
All-append_patterns (p ∷ ps) qs (h, hs) k = (h, All-append_patterns ps qs hs k)

some-injective : (g h : Handler) → some g ≡ some h → g ≡ h
some-injective g h e = cc

no_value-IsOpen :
    (g : Handler) (o : Option (List Text)) (h : Handler)
    → IsOpen g
    → handled (no_value g) o ≡ some h
    → IsOpen h
no_value-IsOpen g none h k e = cc
no_value-IsOpen g (some []) h k e = subst IsOpen (some-injective g h e) k
no_value-IsOpen g (some (v ∷ vs)) h k e = cc

one_value-IsOpen :
    (f : Text → Handler) (o : Option (List Text)) (h : Handler)
    → ((key : Text) → IsOpen (f key))
    → handled (one_value f) o ≡ some h
    → IsOpen h
one_value-IsOpen f none h k e = cc
one_value-IsOpen f (some []) h k e = cc
one_value-IsOpen f (some (v ∷ [])) h k e = subst IsOpen (some-injective (f v) h e) (k v)
one_value-IsOpen f (some (v ∷ v' ∷ vs)) h k e = cc

captured_word :
    (w a : Text) (rest : Option (List Text)) (values : List Text)
    → captured (word w) a rest ≡ some values
    → (w ≡ a) × (rest ≡ some values)
captured_word w a rest values e = ground (arith, =?_sound w a)

match_parts-IsUnder :
    (resource : Text) (behind : List Part) (parts values : List Text)
    → match_parts (word (codes "v1") ∷ word resource ∷ behind) parts ≡ some values
    → IsUnder resource parts
unfolding match_parts
match_parts-IsUnder resource behind [] values e = cc
match_parts-IsUnder resource behind (a ∷ []) values e =
    let (first, second) = captured_word (codes "v1") a none values e in cc
match_parts-IsUnder resource behind (a ∷ b ∷ rest) values e =
    let (first, e') =
      captured_word (codes "v1") a (captured (word resource) b (match_parts behind rest)) values
        e in
    let (second, _) = captured_word resource b (match_parts behind rest) values e' in
    (first, second)

handled-IsUnder :
    (resource : Text) (behind : List Part) (f : List Text → Option Handler) (parts : List Text)
    (o : Option (List Text)) (h : Handler)
    → match_parts (word (codes "v1") ∷ word resource ∷ behind) parts ≡ o
    → handled f o ≡ some h
    → IsUnder resource parts
handled-IsUnder resource behind f parts none h e k = cc
handled-IsUnder resource behind f parts (some values) h e k =
    match_parts-IsUnder resource behind parts values e

-- The patterns under /v1/sandboxes and /v1/containers lead below them.
sandboxes-IsSound :
    (method : Text) (behind : List Part) (f : List Text → Option Handler)
    → IsSound (under method (codes "sandboxes") behind f)
sandboxes-IsSound method behind f = record {
  at = λ parts h e. inr (inl (handled-IsUnder (codes "sandboxes") behind f parts _ h refl e));
}

containers-IsSound :
    (method : Text) (behind : List Part) (f : List Text → Option Handler)
    → IsSound (under method (codes "containers") behind f)
containers-IsSound method behind f = record {
  at = λ parts h e. inr (inr (handled-IsUnder (codes "containers") behind f parts _ h refl e));
}

patterns-IsSound : All IsSound patterns
patterns-IsSound =
    All-append_patterns first_patterns
      (append_patterns sandbox_patterns (append_patterns container_patterns controlled_patterns))
      (
        record { at = λ parts h e. inl (no_value-IsOpen health _ h tt e) },
        (
          record { at = λ parts h e. inl (no_value-IsOpen capabilities _ h tt e) },
          (record { at = λ parts h e. inl (no_value-IsOpen open_api_spec _ h tt e) }, tt),
        ),
      )
      (All-append_patterns sandbox_patterns (append_patterns container_patterns controlled_patterns)
        (
          sandboxes-IsSound _ _ _,
          (
            sandboxes-IsSound _ _ _,
            (
              sandboxes-IsSound _ _ _,
              (
                sandboxes-IsSound _ _ _,
                (
                  sandboxes-IsSound _ _ _,
                  (
                    sandboxes-IsSound _ _ _,
                    (
                      sandboxes-IsSound _ _ _,
                      (
                        sandboxes-IsSound _ _ _,
                        (
                          sandboxes-IsSound _ _ _,
                          (
                            sandboxes-IsSound _ _ _,
                            (sandboxes-IsSound _ _ _, (sandboxes-IsSound _ _ _, tt)),
                          ),
                        ),
                      ),
                    ),
                  ),
                ),
              ),
            ),
          ),
        )
        (All-append_patterns container_patterns controlled_patterns
          (
            containers-IsSound _ _ _,
            (
              containers-IsSound _ _ _,
              (
                containers-IsSound _ _ _,
                (
                  containers-IsSound _ _ _,
                  (
                    containers-IsSound _ _ _,
                    (
                      containers-IsSound _ _ _,
                      (containers-IsSound _ _ _, (containers-IsSound _ _ _, tt)),
                    ),
                  ),
                ),
              ),
            ),
          )
          (
            record {
              at = λ parts h e. inl (one_value-IsOpen controlled_endpoint _ h (λ key. tt) e);
            },
            (
              record {
                at = λ parts h e. inl (one_value-IsOpen controlled_terminal _ h (λ key. tt) e);
              },
              tt,
            ),
          )))

-- A path under /v1/sandboxes or /v1/containers is not public.
inner-is_public :
    (resource : Text)
    → (resource ≡ codes "sandboxes") ⊎ (resource ≡ codes "containers")
    → (rest : List Text) → is_public (url_path (codes "v1" ∷ resource ∷ rest)) ≡ false
unfolding join ◌=?◌
inner-is_public resource (inl e) [] = rw e refl
inner-is_public resource (inl e) (part ∷ rest) = rw e refl
inner-is_public resource (inr e) [] = rw e refl
inner-is_public resource (inr e) (part ∷ rest) = rw e refl

under-is_public :
    (resource : Text)
    → (resource ≡ codes "sandboxes") ⊎ (resource ≡ codes "containers")
    → (parts : List Text) → IsUnder resource parts
    → is_public (url_path parts) ≡ false
under-is_public resource known [] under = absurd under
under-is_public resource known (a ∷ []) under = absurd under
under-is_public resource known (a ∷ b ∷ rest) (first, second) =
    rw (sym first, sym second) (inner-is_public resource known rest)

-- A public path leads to a handler that needs no bearer token, or to none.
pub route-IsOpen :
    (method : Text) (parts : List Text) (h : Handler)
    → is_public (url_path parts) ≡ true
    → route method parts ≡ found h
    → IsOpen h
unfolding route
route-IsOpen method parts h public e =
    elim (route_in-Leads patterns patterns-IsSound method parts h e) [
      | inl free ↦ free
      | inr (inl below) ↦
          (let closed = under-is_public (codes "sandboxes") (inl refl) parts below in absurd cc)
      | inr (inr below) ↦
          (let closed = under-is_public (codes "containers") (inr refl) parts below in absurd cc)
    ]
