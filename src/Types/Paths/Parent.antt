-- ===== src/Types/Paths/Parent.antt =====
-- The directory of a path that safeWorkspacePath of internal/controller/types.go has accepted.
use docker_control.Prelude.{
  ◌≡◌, ◌≢◌, refl, sym, ap, ◌∙◌, true, false, List, [], ◌∷◌, ◌++◌, ◌⊎◌, inl, inr, arith, any, All,
  ◌=?◌,
}
use mathlib.Core.Path.{subst}
use mathlib.Core.List.{append-nil}
use docker_control.Text.{Text, codes, split, join, clean, dir}
use docker_control.Text.Lacks.{Lacks, split-append_sep, split-join}
use docker_control.Text.FilePaths.{reversed_onto, step, kept_parts, all_but_last}
use docker_control.Types.Paths.{root, is_special}
use docker_control.Types.Paths.Inside.{IsPlain, IsInside, plain_not_special, plain-Lacks}

abbrev pub workspace : Text
workspace = codes "/workspace"

-- /workspace itself, or inside it.
abbrev pub IsWithin : Text → Type 0
IsWithin path = (path ≡ workspace) ⊎ IsInside path

workspace-Lacks : Lacks b'/' (codes "workspace")
workspace-Lacks = (
  λ e. omega arith,
  (
    λ e. omega arith,
    (
      λ e. omega arith,
      (
        λ e. omega arith,
        (
          λ e. omega arith,
          (λ e. omega arith, (λ e. omega arith, (λ e. omega arith, (λ e. omega arith, tt)))),
        ),
      ),
    ),
  ),
)

reversed_twice :
    (acc done xs : List Text)
    → reversed_onto acc (reversed_onto done xs) ≡ reversed_onto (xs ++ acc) done
reversed_twice acc done [] = refl
reversed_twice acc done (x ∷ xs) = reversed_twice acc (x ∷ done) xs

step_name : (x : Text) (done : List Text) → is_special x ≡ false → step true x done ≡ x ∷ done
step_name x done h = ground arith

kept_names :
    (done xs : List Text)
    → any is_special xs ≡ false
    → kept_parts true done (xs ++ [] ∷ []) ≡ reversed_onto done xs
unfolding kept_parts ◌=?◌
kept_names done [] h = refl
kept_names done (x ∷ xs) h =
    ap (λ d. kept_parts true d (xs ++ [] ∷ [])) (step_name x done (ground arith))
    ∙ kept_names (x ∷ done) xs (ground arith)

All-append_one :
    (P : Text → Type 0) (xs : List Text) (x : Text) → All P xs → P x → All P (xs ++ x ∷ [])
All-append_one P [] x h k = (k, tt)
All-append_one P (y ∷ ys) x (h, hs) k = (h, All-append_one P ys x hs k)

kept_first :
    (xs : List Text)
    → any is_special xs ≡ false
    → kept_parts true [] ([] ∷ (xs ++ [] ∷ [])) ≡ reversed_onto [] xs
unfolding kept_parts ◌=?◌
kept_first xs k = kept_names [] xs k

clean_names :
    (name : Text) (names : List Text)
    → All (Lacks b'/') (name ∷ names)
    → any is_special (name ∷ names) ≡ false
    → clean (b'/' ∷ join (name ∷ (names ++ [] ∷ [])) b'/') ≡ b'/' ∷ join (name ∷ names) b'/'
unfolding clean
clean_names name names (l, ls) h =
    let divided =
      split-append_sep [] (join (name ∷ (names ++ [] ∷ [])) b'/') b'/' tt
      ∙ ap (λ parts. [] ∷ parts)
          (split-join name (names ++ [] ∷ []) b'/'
            (l, All-append_one (Lacks b'/') names [] ls tt)) in
    ap (λ parts. b'/' ∷ join (reversed_onto [] (kept_parts true [] parts)) b'/') divided
    ∙ ap (λ parts. b'/' ∷ join (reversed_onto [] parts) b'/') (kept_first (name ∷ names) h)
    ∙ ap (λ parts. b'/' ∷ join parts b'/')
        (reversed_twice [] [] (name ∷ names) ∙ append-nil (name ∷ names))

divided_path :
    (part : Text) (parts : List Text)
    → All IsPlain (part ∷ parts)
    → split (root ++ join (part ∷ parts) b'/') b'/' ≡ [] ∷ codes "workspace" ∷ part ∷ parts
divided_path part parts h =
    split-append_sep [] (codes "workspace" ++ (b'/' ∷ join (part ∷ parts) b'/')) b'/' tt
    ∙ ap (λ xs. [] ∷ xs)
        (split-append_sep (codes "workspace") (join (part ∷ parts) b'/') b'/' workspace-Lacks
          ∙ ap (λ xs. codes "workspace" ∷ xs)
              (split-join part parts b'/' (plain-Lacks (part ∷ parts) h).0))

all_but_last-IsPlain : (parts : List Text) → All IsPlain parts → All IsPlain (all_but_last parts)
all_but_last-IsPlain [] h = tt
all_but_last-IsPlain (part ∷ []) h = tt
all_but_last-IsPlain (part ∷ next ∷ parts) (h, hs) = (h, all_but_last-IsPlain (next ∷ parts) hs)

-- The directory of names behind /workspace.
dir_names :
    (part : Text) (parts : List Text)
    → All IsPlain (part ∷ parts)
    → dir (root ++ join (part ∷ parts) b'/')
      ≡ b'/' ∷ join (codes "workspace" ∷ all_but_last (part ∷ parts)) b'/'
unfolding dir join ◌=?◌
dir_names part parts h =
    let inner = all_but_last-IsPlain (part ∷ parts) h in
    ap (λ xs. clean (join (all_but_last xs ++ [] ∷ []) b'/')) (divided_path part parts h)
    ∙ clean_names (codes "workspace") (all_but_last (part ∷ parts))
        (workspace-Lacks, (plain-Lacks _ inner).0) (plain_not_special _ inner)

IsWithin-names :
    (names : List Text)
    → All IsPlain names
    → IsWithin (b'/' ∷ join (codes "workspace" ∷ names) b'/')
unfolding join
IsWithin-names [] h = inl refl
IsWithin-names (name ∷ names) h =
    inr (record { parts = name ∷ names; some_part = λ e. cc; plain = h; joined = refl })

-- The directory of a path inside /workspace is /workspace or inside it.
pub dir-IsWithin : (path : Text) → IsInside path → IsWithin (dir path)
dir-IsWithin path h = within_parts h.parts h.some_part h.plain h.joined
  where
    within_parts :
        (parts : List Text)
        → parts ≢ []
        → All IsPlain parts
        → path ≡ root ++ join parts b'/'
        → IsWithin (dir path)
    within_parts [] n p e = absurd (n refl)
    within_parts (part ∷ parts) n p e =
        subst IsWithin (sym (ap dir e ∙ dir_names part parts p))
          (IsWithin-names (all_but_last (part ∷ parts)) (all_but_last-IsPlain (part ∷ parts) p))
