-- ===== src/Server/Routes.antt =====
-- The routes of NewServer of internal/controller/server.go, on paths that need no cleaning.
pub mod Aliases
use docker_control.Prelude.{
  Bool, true, false, ◌&&◌, ◌||◌, List, [], ◌∷◌, Option, none, some, ◌=?◌, if◌then◌else◌,
}
use docker_control.Text.{Text, codes}

-- The handlers, with the values of {key} and {id}
pub data Handler : Type 0 where
  health capabilities open_api_spec list_containers : Handler
  ensure_container get_container delete_container rebuild_container : Text → Handler
  list_snapshots create_snapshot : Text → Handler
  restore_snapshot delete_snapshot : Text → Text → Handler
  management_terminal write_file read_file : Text → Handler
  controlled_endpoint controlled_terminal : Text → Handler

pub data Routed : Type 0 where
  found : Handler → Routed
  -- another method has the path
  not_allowed : Routed
  not_found : Routed

-- A part of a pattern: itself, or a wildcard, which takes a part that is not empty.
pub data Part : Type 0 where
  word : Text → Part
  wildcard : Part

abbrev pub captured : Part → Text → Option (List Text) → Option (List Text)
captured (word w) part rest = if w =? part then rest else none
captured wildcard part none = none
captured wildcard part (some values) = if part =? [] then none else some (part ∷ values)

unfoldable pub match_parts : List Part → List Text → Option (List Text)
match_parts [] [] = some []
match_parts [] (part ∷ parts) = none
match_parts (p ∷ ps) [] = none
match_parts (p ∷ ps) (part ∷ parts) = captured p part (match_parts ps parts)

-- The method of a pattern; GET stands for HEAD as well.
abbrev pub takes_method : Text → Text → Bool
takes_method pattern method =
    pattern =? method || (pattern =? codes "GET" && method =? codes "HEAD")

pub record Pattern : Type 0 where
  pub method : Text
  pub parts : List Part
  pub handler : List Text → Option Handler

abbrev pub no_value : Handler → List Text → Option Handler
no_value h [] = some h
no_value h _ = none

abbrev pub one_value : (Text → Handler) → List Text → Option Handler
one_value f (key ∷ []) = some (f key)
one_value f _ = none

abbrev pub two_values : (Text → Text → Handler) → List Text → Option Handler
two_values f (key ∷ id ∷ []) = some (f key id)
two_values f _ = none

-- /v1/<resource> and /v1/<resource>/{key} with what stands behind
abbrev pub under : Text → Text → List Part → (List Text → Option Handler) → Pattern
under method resource behind handler = record {
  method = method;
  parts = word (codes "v1") ∷ word resource ∷ behind;
  handler = handler;
}

abbrev pub keyed : Text → Text → List Part → (List Text → Option Handler) → Pattern
keyed method resource behind handler = under method resource (wildcard ∷ behind) handler

-- The patterns under /v1/sandboxes, in their order
abbrev pub sandbox_patterns : List Pattern
sandbox_patterns =
    under (codes "GET") (codes "sandboxes") ([]) (no_value list_containers)
    ∷ keyed (codes "PUT") (codes "sandboxes") ([]) (one_value ensure_container)
    ∷ keyed (codes "GET") (codes "sandboxes") ([]) (one_value get_container)
    ∷ keyed (codes "DELETE") (codes "sandboxes") ([]) (one_value delete_container)
    ∷ keyed (codes "POST") (codes "sandboxes") (word (codes "rebuild") ∷ [])
        (one_value rebuild_container)
    ∷ keyed (codes "GET") (codes "sandboxes") (word (codes "snapshots") ∷ [])
        (one_value list_snapshots)
    ∷ keyed (codes "POST") (codes "sandboxes") (word (codes "snapshots") ∷ [])
        (one_value create_snapshot)
    ∷ keyed (codes "POST") (codes "sandboxes")
        (word (codes "snapshots") ∷ wildcard ∷ word (codes "restore") ∷ [])
        (two_values restore_snapshot)
    ∷ keyed (codes "DELETE") (codes "sandboxes") (word (codes "snapshots") ∷ wildcard ∷ [])
        (two_values delete_snapshot)
    ∷ keyed (codes "GET") (codes "sandboxes") (word (codes "terminal") ∷ [])
        (one_value management_terminal)
    ∷ keyed (codes "PUT") (codes "sandboxes") (word (codes "files") ∷ []) (one_value write_file)
    ∷ keyed (codes "GET") (codes "sandboxes") (word (codes "files") ∷ []) (one_value read_file)
    ∷ []

-- The patterns under /v1/containers
abbrev pub container_patterns : List Pattern
container_patterns =
    under (codes "GET") (codes "containers") ([]) (no_value list_containers)
    ∷ keyed (codes "PUT") (codes "containers") ([]) (one_value ensure_container)
    ∷ keyed (codes "GET") (codes "containers") ([]) (one_value get_container)
    ∷ keyed (codes "DELETE") (codes "containers") ([]) (one_value delete_container)
    ∷ keyed (codes "POST") (codes "containers") (word (codes "rebuild") ∷ [])
        (one_value rebuild_container)
    ∷ keyed (codes "GET") (codes "containers") (word (codes "terminal") ∷ [])
        (one_value management_terminal)
    ∷ keyed (codes "PUT") (codes "containers") (word (codes "files") ∷ []) (one_value write_file)
    ∷ keyed (codes "GET") (codes "containers") (word (codes "files") ∷ []) (one_value read_file)
    ∷ []

-- health, capabilities and the document, which stand first
abbrev pub first_patterns : List Pattern
first_patterns =
    under (codes "GET") (codes "health") [] (no_value health)
    ∷ under (codes "GET") (codes "capabilities") [] (no_value capabilities)
    ∷ record {
      method = codes "GET";
      parts = word (codes "openapi.yaml") ∷ [];
      handler = no_value open_api_spec;
    }
    ∷ []

-- The patterns under /v1/controlled, which stand last
abbrev pub controlled_patterns : List Pattern
controlled_patterns =
    keyed (codes "GET") (codes "controlled") [] (one_value controlled_endpoint)
    ∷ keyed (codes "GET") (codes "controlled") (word (codes "terminal") ∷ [])
        (one_value controlled_terminal)
    ∷ []

abbrev pub or_allowed : Routed → Routed
or_allowed not_found = not_allowed
or_allowed r = r

-- no two patterns of one method match the same path
abbrev pub chosen : Bool → Option Handler → Routed → Routed
chosen fits none rest = rest
chosen true (some h) rest = found h
chosen false (some h) rest = or_allowed rest

abbrev pub handled : (List Text → Option Handler) → Option (List Text) → Option Handler
handled f none = none
handled f (some values) = f values

unfoldable pub route_in : List Pattern → Text → List Text → Routed
unfolding match_parts
route_in [] method parts = not_found
route_in (p ∷ ps) method parts =
    chosen (takes_method p.method method) (handled p.handler (match_parts p.parts parts))
      (route_in ps method parts)

abbrev pub append_patterns : List Pattern → List Pattern → List Pattern
append_patterns [] qs = qs
append_patterns (p ∷ ps) qs = p ∷ append_patterns ps qs

-- The registrations of NewServer, in their order
abbrev pub patterns : List Pattern
patterns =
    append_patterns first_patterns
      (append_patterns sandbox_patterns (append_patterns container_patterns controlled_patterns))

-- The handler for a method and the parts of a path behind its first slash
unfoldable pub route : Text → List Text → Routed
unfolding route_in
route method parts = route_in patterns method parts
