-- ===== src/Types/Paths/Inside.antt =====
-- Where safeWorkspacePath of internal/controller/types.go leads.
use docker_control.Prelude.{
  ◌≡◌, ◌≢◌, refl, false, ◌||◌, List, [], ◌∷◌, ◌++◌, arith, ◌=?◌, =?_iff, any, All,
}
use docker_control.Errors.{ok}
use docker_control.Text.{Text, codes, trim_space, has_prefix, replace_byte, split, join}
use docker_control.Text.Lacks.{
  Lacks, split-Lacks_sep, split-Lacks, replace_byte-Lacks, split-ne-nil, split-join,
  replace_byte_of_Lacks, Lacks-join,
}
use docker_control.Types.Paths.{root, is_special, safe_workspace_path}

-- A name that stays in its directory, where "/" and "\" separate.
pub record IsPlain (part : Text) : Type 0 where
  pub not_empty : part ≢ []
  pub not_here : part ≢ codes "."
  pub not_parent : part ≢ codes ".."
  pub no_slash : Lacks b'/' part
  pub no_backslash : Lacks b'\\' part

pub record IsInside (path : Text) : Type 0 where
  pub parts : List Text
  pub some_part : parts ≢ []
  pub plain : All IsPlain parts
  pub joined : path ≡ root ++ join parts b'/'

IsPlain-parts :
    (parts : List Text)
    → any is_special parts ≡ false
    → All (Lacks b'/') parts
    → All (Lacks b'\\') parts
    → All IsPlain parts
IsPlain-parts [] h k l = tt
IsPlain-parts (part ∷ parts) h (k, ks) (l, ls) = (
  record {
    not_empty = ground (arith, =?_iff part []);
    not_here = ground (arith, =?_iff part (codes "."));
    not_parent = ground (arith, =?_iff part (codes ".."));
    no_slash = k;
    no_backslash = l;
  },
  IsPlain-parts parts (ground arith) ks ls,
)

-- An accepted path is "/workspace/" with one or more names behind it, joined by "/": no name is
-- empty, "." or "..", and none holds a slash or a backslash.
pub safe_workspace_path-IsInside : (path q : Text) → safe_workspace_path path ≡ ok q → IsInside q
unfolding safe_workspace_path
safe_workspace_path-IsInside path q h =
    let cleaned = replace_byte (trim_space path) b'\\' (codes "/") in
    let parts = split cleaned b'/' in
    record {
      parts = parts;
      some_part = split-ne-nil cleaned b'/';
      plain =
          IsPlain-parts parts (ground arith) (split-Lacks_sep cleaned b'/')
            (split-Lacks cleaned b'/' b'\\' (replace_byte-Lacks (trim_space path)));
      joined = ground arith;
    }

pub plain_not_special : (parts : List Text) → All IsPlain parts → any is_special parts ≡ false
plain_not_special [] h = refl
plain_not_special (part ∷ parts) (h, hs) = ground (
  arith,
  h.not_empty,
  h.not_here,
  h.not_parent,
  =?_iff part [],
  =?_iff part (codes "."),
  =?_iff part (codes ".."),
  plain_not_special parts hs,
)

pub plain-Lacks :
    (parts : List Text) → All IsPlain parts → All (Lacks b'/') parts × All (Lacks b'\\') parts
plain-Lacks [] h = (tt, tt)
plain-Lacks (part ∷ parts) (h, hs) =
    let (k, l) = plain-Lacks parts hs in ((h.no_slash, k), (h.no_backslash, l))

-- The first name begins the joined path, and is neither empty nor a slash.
join_is_relative :
    (part : Text) (parts : List Text)
    → IsPlain part
    → (join (part ∷ parts) b'/' =? [] || has_prefix (join (part ∷ parts) b'/') (codes "/")) ≡ false
unfolding join ◌=?◌
join_is_relative [] parts h = absurd (h.not_empty refl)
join_is_relative (c ∷ part) [] h = ground (arith, h.no_slash)
join_is_relative (c ∷ part) (next ∷ parts) h = ground (arith, h.no_slash)

-- Names joined by "/" are accepted as they stand, if none is empty, "." or ".." or holds a slash or
-- a backslash, and no white space stands at the ends.
pub safe_workspace_path-join :
    (part : Text) (parts : List Text)
    → All IsPlain (part ∷ parts)
    → trim_space (join (part ∷ parts) b'/') ≡ join (part ∷ parts) b'/'
    → safe_workspace_path (join (part ∷ parts) b'/') ≡ ok (root ++ join (part ∷ parts) b'/')
unfolding safe_workspace_path
safe_workspace_path-join part parts h t =
    let (k, l) = plain-Lacks (part ∷ parts) h in
    rw
      (
        t,
        replace_byte_of_Lacks (join (part ∷ parts) b'/') b'\\' (codes "/")
            (Lacks-join b'\\' (part ∷ parts) b'/' (omega arith) l),
      )
      (rw
        (
          join_is_relative part parts h.0,
          split-join part parts b'/' k,
          plain_not_special (part ∷ parts) h,
        )
        refl)
