-- ===== src/Errors.antt =====
-- Go's error values, as the package tells them apart by errors.Is: the sentinel that an error is or
-- wraps (internal/controller/types.go, and the standard library's), and its text.
use docker_control.Prelude.{◌≡◌, refl, ◌⊎◌, inl, inr, ◌++◌}
use docker_control.Text.{Text, codes}

pub data Kind : Type 0 where
  not_found image_preparing sandbox_not_ready invalid_sandbox_key snapshot_limit : Kind
  canceled end_of_file unexpected_end closed timeout port_unavailable not_exist no_rounds plain :
      Kind

pub record Error : Type 0 where
  pub kind : Kind
  pub text : Text

pub data Result {ℓ} (A : Type ℓ) : Type ℓ where
  ok : A → Result A
  err : Error → Result A

-- errors.New(text)
abbrev pub new_error : Text → Error
new_error t = record { kind = Kind.plain; text = t }

-- fmt.Errorf("before%w", e)
abbrev pub wrap_behind : Text → Error → Error
wrap_behind before e = record e { text = before ++ e.text }

-- fmt.Errorf("%wbehind", e)
abbrev pub wrap_before : Error → Text → Error
wrap_before e behind = record e { text = e.text ++ behind }

abbrev pub err_not_found : Error
err_not_found = record { kind = Kind.not_found; text = codes "not found" }

abbrev pub err_image_preparing : Error
err_image_preparing = record {
  kind = Kind.image_preparing;
  text = codes "sandbox image is being prepared";
}

abbrev pub err_sandbox_not_ready : Error
err_sandbox_not_ready = record {
  kind = Kind.sandbox_not_ready;
  text = codes "sandbox is not ready";
}

abbrev pub err_invalid_sandbox_key : Error
err_invalid_sandbox_key = record {
  kind = Kind.invalid_sandbox_key;
  text = codes "invalid sandbox key";
}

abbrev pub err_snapshot_limit : Error
err_snapshot_limit = record { kind = Kind.snapshot_limit; text = codes "snapshot limit reached" }

infixl 5 ◌>>=◌
abbrev pub ◌>>=◌ {ℓ κ} : {A : Type ℓ} {B : Type κ} → Result A → (A → Result B) → Result B
ok a >>= f = f a
err e >>= f = err e

pub Result-cases {ℓ} :
    {A : Type ℓ} (r : Result A) → ((a : A) × (r ≡ ok a)) ⊎ ((e : Error) × (r ≡ err e))
Result-cases (ok a) = inl (a, refl)
Result-cases (err e) = inr (e, refl)
