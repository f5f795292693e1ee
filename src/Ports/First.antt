-- ===== src/Ports/First.antt =====
-- Which port ListenWithFallback of internal/controller/runtime.go listens on.
use docker_control.Prelude.{
  ℕ, zero, suc, ◌+◌, ◌<◌, ◌≤◌, true, false, ◌≡◌, ◌≢◌, refl, Option, none, some, arith, ltb, ◌==◌,
  ◌⊎◌, inl, inr, ◌∙◌, ◌↔◌, Bool-cases,
}
use docker_control.Errors.{Error, Result, ok, err, Result-cases}
use docker_control.Text.{Text}
use docker_control.Ports.{is_port_unavailable, candidate, search_port, listen_with_fallback}

-- Listening has failed since the port is not available.
pub record IsTaken {L : Type 0} (r : Result L) : Type 0 where
  pub error : Error
  pub failed : r ≡ err error
  pub unavailable : is_port_unavailable error ≡ true

Nat-cases : (k : ℕ) → (k ≡ 0) ⊎ ((j : ℕ) × (k ≡ suc j))
Nat-cases zero = inl refl
Nat-cases (suc j) = inr (j, refl)

module _ {L : Type 0} (listen : Text → Result L) (address host : Text) (fallbacks : ℕ) where
  -- The first of some ports that is not taken, at `offset`, can be listened on.
  pub record IsFirst (port rounds : ℕ) (l : L) : Type 0 where
    pub offset : ℕ
    pub within : offset < rounds
    pub is_port : port + offset ≤ 65535
    pub free : listen (candidate host (port + offset)) ≡ ok l
    pub before : (k : ℕ) → k < offset → IsTaken (listen (candidate host (port + k)))

  search_port-finds :
      (offset port rounds : ℕ) (last : Option Error) (l : L)
      → offset < rounds
      → port + offset ≤ 65535
      → listen (candidate host (port + offset)) ≡ ok l
      → ((k : ℕ) → k < offset → IsTaken (listen (candidate host (port + k))))
      → search_port listen address host fallbacks rounds port last ≡ ok l
  unfolding search_port
  search_port-finds offset port zero last l h m f b = absurd (omega arith)
  search_port-finds zero port (suc rounds) last l h m f b =
      let fits : ltb 65535 port ≡ false = ground arith in
      let here : port + 0 ≡ port = omega arith in
      let found = (rw here at f) in rw (fits, found) refl
  search_port-finds (suc offset) port (suc rounds) last l h m f b =
      let fits : ltb 65535 port ≡ false = ground arith in
      let here : port + 0 ≡ port = omega arith in
      let taken = b 0 (omega arith) in
      let failed = (rw here at taken.failed) in
      rw (fits, failed, taken.unavailable)
        (search_port-finds offset (port + 1) rounds (some taken.error) l (omega arith) (omega arith)
          (let e : (port + 1) + offset ≡ port + suc offset = omega arith in rw e f)
          (λ k small.
            let e : (port + 1) + k ≡ port + suc k = omega arith in rw e (b (suc k) (omega arith))))

  later :
      (port rounds : ℕ) (l : L) (e : Error)
      → port ≤ 65535
      → listen (candidate host port) ≡ err e
      → is_port_unavailable e ≡ true
      → IsFirst (port + 1) rounds l
      → IsFirst port (suc rounds) l
  later port rounds l e m f u h = record {
    offset = suc h.offset;
    within = omega (arith, h.within);
    is_port = omega (arith, h.is_port);
    free = let same : port + suc h.offset ≡ (port + 1) + h.offset = omega arith in rw same h.free;
    before = λ k small. elim (Nat-cases k) [
      | inl first ↦
          let here : port + k ≡ port = omega (arith, first) in
          rw here (record { error = e; failed = f; unavailable = u })
      | inr (j, next) ↦
          let there : port + k ≡ (port + 1) + j = omega (arith, next) in
          rw there (h.before j (omega (arith, next)))
    ];
  }

  search_port-IsFirst :
      (rounds port : ℕ) (last : Option Error) (l : L)
      → search_port listen address host fallbacks rounds port last ≡ ok l
      → IsFirst port rounds l
  unfolding search_port
  search_port-IsFirst zero port last l h = cc
  search_port-IsFirst (suc rounds) port last l h = elim (Bool-cases (ltb 65535 port)) [
    | inl past ↦ let g = (rw past at h) in cc
    | inr fits ↦
        let g = (rw fits at h) in
        let low : port ≤ 65535 = ground arith in
        let here : port + 0 ≡ port = omega arith in
        elim (Result-cases (listen (candidate host port))) [
          | inl (a, f) ↦
              let same = (rw f at g) in
              record {
                offset = 0;
                within = omega arith;
                is_port = omega arith;
                free = rw here (f ∙ same);
                before = λ k small. absurd (omega arith);
              }
          | inr (e, f) ↦
              let failed = (rw f at g) in
              elim (Bool-cases (is_port_unavailable e)) [
                | inl u ↦
                    let rest = (rw u at failed) in
                    later port rounds l e low f u
                      (search_port-IsFirst rounds (port + 1) (some e) l rest)
                | inr other ↦ let wrong = (rw other at failed) in cc
              ]
        ]
  ]

  -- For a port that is not 0, ListenWithFallback returns a listener exactly if that is the one on the
  -- first port that is not taken, among the given port and as many behind it as there are
  -- fallbacks: every port in front of it is taken, and none passes 65535.
  pub listen_with_fallback-IsFirst :
      (port : ℕ) (l : L)
      → port ≢ 0
      → (listen_with_fallback listen address host fallbacks port ≡ ok l)
        ↔ IsFirst port (suc fallbacks) l
  unfolding listen_with_fallback
  listen_with_fallback-IsFirst port l n =
      let given : port == 0 ≡ false = ground arith in
      rw given (
        λ h. search_port-IsFirst (suc fallbacks) port none l h,
        λ h.
            search_port-finds h.offset port (suc fallbacks) none l h.within h.is_port h.free
              h.before,
      )
