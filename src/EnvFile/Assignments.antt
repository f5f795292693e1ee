-- ===== src/EnvFile/Assignments.antt =====
-- What LoadEnvFile of internal/controller/runtime.go reads of assignments that have been written.
use docker_control.Prelude.{
  false, ◌||◌, List, [], ◌∷◌, ◌≡◌, ◌≢◌, refl, none, some, All, map, arith, ◌==◌, ◌=?◌, =?_sound,
  if◌then◌else◌, Bool-cases, inl, inr,
}
use docker_control.Text.{Text, codes, trim_space, has_prefix, contains_byte}
use docker_control.EnvFile.{
  Environment, is_set, set_env, cut_at, trim_quotes, load_line, load_lines, assignment,
}

-- A name and a value that one line can carry: a name that is not empty, holds no equals sign and begins
-- no comment, no zero byte, no white space at the ends, and no quote at the ends of the value.
pub record IsWritable (pair : Text × Text) : Type 0 where
  pub named : pair.0 ≢ []
  pub no_sign : contains_byte pair.0 b'=' ≡ false
  pub no_comment : has_prefix (assignment pair.0 pair.1) (codes "#") ≡ false
  pub zero_free : (contains_byte pair.0 0 || contains_byte pair.1 0) ≡ false
  pub whole_name : trim_space pair.0 ≡ pair.0
  pub whole_value : trim_space pair.1 ≡ pair.1
  pub whole_line : trim_space (assignment pair.0 pair.1) ≡ assignment pair.0 pair.1
  pub unquoted : trim_quotes pair.1 ≡ pair.1

cut_at-assignment :
    (name value : Text)
    → contains_byte name b'=' ≡ false
    → cut_at b'=' (assignment name value) ≡ some (name, value)
unfolding cut_at contains_byte
cut_at-assignment [] value h = refl
cut_at-assignment (c ∷ name) value h =
    let other : c == b'=' ≡ false = ground arith in
    rw (other, cut_at-assignment name value (ground arith)) refl

assignment-not_empty : (name value : Text) → assignment name value =? [] ≡ false
unfolding ◌=?◌
assignment-not_empty [] value = refl
assignment-not_empty (c ∷ name) value = refl

-- The pairs whose names are not set yet are set, in order.
unfoldable pub settings : List (Text × Text) → Environment → Environment
settings [] env = env
settings (pair ∷ pairs) env = settings pairs (if is_set pair.0 env then env else pair ∷ env)

load_line-assignment :
    (pair : Text × Text) (env : Environment)
    → IsWritable pair
    → load_line (assignment pair.0 pair.1) env
      ≡ (none, if is_set pair.0 env then env else pair ∷ env)
unfolding load_line set_env
load_line-assignment (name, value) env h =
    let named : name =? [] ≡ false = elim (Bool-cases (name =? [])) [
      | inl empty ↦ absurd (h.named (=?_sound name [] empty))
      | inr given ↦ given
    ] in
    let some_line : assignment name value =? [] ≡ false = assignment-not_empty name value in
    rw (h.whole_line, some_line, h.no_comment, cut_at-assignment name value h.no_sign)
      (rw (h.whole_name, named, h.whole_value, h.unquoted, h.no_sign) (ground (arith, h.zero_free)))

-- Assignments that have been written one to a line are read back, if no value begins or ends with
-- white space or a quote: each name that was not set gets its value, and the others keep theirs.
pub load_lines-assignment :
    (pairs : List (Text × Text)) (env : Environment)
    → All IsWritable pairs
    → load_lines (map (λ pair. assignment pair.0 pair.1) pairs) env ≡ (none, settings pairs env)
unfolding load_lines settings
load_lines-assignment [] env h = refl
load_lines-assignment (pair ∷ pairs) env (h, hs) =
    rw (load_line-assignment pair env h) (load_lines-assignment pairs _ hs)
