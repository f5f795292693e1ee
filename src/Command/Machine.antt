-- ===== src/Command/Machine.antt =====
-- The operating system as internal/command/command.go uses it, which may answer anything: files,
-- links, listeners, other programs, the
-- terminal and random bytes.
use docker_control.Prelude.{ℕ, List, ◌∷◌, Option, none, some}
use docker_control.Errors.{Error, Result, ok, err}
use docker_control.Text.{Text}
use docker_control.EnvFile.{Environment}
use docker_control.Ports.Address.{TcpAddress}
use docker_control.Engine.Monad.{Sys}

-- What is asked of the operating system.
pub data Act : Type 0 where
  got_wd : Act
  stat : Text → Act
  read_file : Text → Act
  write_file : Text → List ℕ → Act
  mkdir_all : Text → Act
  remove : Text → Act
  remove_all : Text → Act
  rename : Text → Text → Act
  chmod : Text → Act
  open_file : Text → Act
  create_file : Text → Act
  copy_file : Text → Text → Act
  close_file : Text → Act
  read_link : Text → Act
  ran : List Text → Act
  listened : Text → Act
  closed_listener : Act
  served : Act
  drew_token : ℕ → Act
  printed : Text → Act

-- The latest act first.
abbrev pub Log : Type 0
Log = List Act

-- Its answers, which may depend on all that has happened before.
pub record Machine : Type 0 where
  -- whether an act fails
  pub fails : Log → Act → Option Error
  pub contents : Log → Text → Result (List ℕ)
  pub link : Log → Text → Result Text
  pub working_dir : Log → Result Text
  pub executable : Result Text
  -- the address that a listener has got, for the address that it is to listen on
  pub listener : Log → Text → Result TcpAddress
  -- the output of a program, and its error
  pub output : Log → List Text → Text × Option Error
  pub random_bytes : Log → ℕ → Result (List ℕ)

pub record Proc : Type 0 where
  pub log : Log
  pub env : Environment
  pub docker : Sys

abbrev pub P : Type 0 → Type 0
P A = Proc → Result A × Proc

module _ {A : Type 0} where
  abbrev pub pure : A → P A
  pure a s = (ok a, s)

  abbrev pub fail : Error → P A
  fail e s = (err e, s)

  abbrev pub gets : (Proc → A) → P A
  gets f s = (ok (f s), s)

  -- what is computed with the log so far
  abbrev pub using : (Log → P A) → P A
  using f s = f s.log s

  abbrev pub lift : Result A → P A
  lift r s = (r, s)

  abbrev pub attempt : P A → P (Result A)
  attempt m s = let (r, s') = m s in (ok r, s')

  abbrev pub ignored : P A → P (Unit {0})
  ignored m s = let (r, s') = m s in (ok tt, s')

  -- what is computed with the Docker engine
  abbrev pub engine : (Sys → Result A × Sys) → P A
  engine m s = let (r, d) = m s.docker in (r, record s { docker = d })

module _ {A B : Type 0} where
  abbrev pub continue : (A → P B) → Result A × Proc → Result B × Proc
  continue f (ok a, s) = f a s
  continue f (err e, s) = (err e, s)

  infixl 5 ◌>>=◌
  abbrev pub ◌>>=◌ : P A → (A → P B) → P B
  ◌>>=◌ m f s = continue f (m s)

infixl 5 ◌>>◌
abbrev pub ◌>>◌ : {B : Type 0} → P (Unit {0}) → P B → P B
m >> k = m >>= λ _. k

abbrev pub logged : Act → Proc → Proc
logged a s = record s { log = a ∷ s.log }

abbrev pub done : Option Error → Result (Unit {0})
done none = ok tt
done (some e) = err e

module _ (m : Machine) where
  -- an act that only succeeds or fails
  abbrev pub act : Act → P (Unit {0})
  act a s = (done (m.fails s.log a), logged a s)

  abbrev pub contents_of : Text → P (List ℕ)
  contents_of path s = (m.contents s.log path, logged (read_file path) s)

  abbrev pub link_of : Text → P Text
  link_of path s = (m.link s.log path, logged (read_link path) s)

  abbrev pub wd : P Text
  wd s = (m.working_dir s.log, logged got_wd s)

  abbrev pub output_of : List Text → P (Text × Option Error)
  output_of words s = (ok (m.output s.log words), logged (ran words) s)

  abbrev pub random_of : ℕ → P (List ℕ)
  random_of n s = (m.random_bytes s.log n, logged (drew_token n) s)
