-- ===== src/Engine/Lifecycle/Listing.antt =====
-- What List of internal/controller/docker.go answers.
use docker_control.Prelude.{
  Bool, true, false, ◌||◌, List, [], ◌∷◌, ◌++◌, ◌≡◌, refl, inl, inr, ◌=?◌, =?_sound, =?_refl, any,
  arith, Bool-cases,
}
use mathlib.Core.Path.{subst}
use docker_control.Errors.{ok}
use docker_control.Text.{Text}
use docker_control.Engine.Model.{Container, Summary, managed_label, legacy_managed_label}
use docker_control.Engine.Monad.{World, Sys}
use docker_control.Engine.Sandboxes.{container}
use docker_control.Engine.Lifecycle.{add_unseen, managed_by, list}

abbrev pub has_id : Text → List Text → Bool
has_id id seen = any (λ other. other =? id) seen

abbrev pub lists : Text → List Container → Bool
lists id cs = any (λ (c : Container). c.id =? id) cs

-- No two of the containers have one identifier.
pub AreDistinct : List Container → Type 0
AreDistinct [] = Unit
AreDistinct (c ∷ cs) = (lists c.id cs ≡ false) × AreDistinct cs

lists-append :
    (id : Text) (cs ds : List Container) → lists id (cs ++ ds) ≡ (lists id cs || lists id ds)
lists-append id [] ds = refl
lists-append id (c ∷ cs) ds = ground (arith, lists-append id cs ds)

-- The containers that one answer adds, with `seen` behind it: an identifier is in `seen` behind it if
-- it was there, or if it is added; what was there is not added.
add_unseen-lists :
    (items : List Summary) (seen : List Text) (id : Text)
    → (has_id id (add_unseen items seen).1 ≡ (has_id id seen || lists id (add_unseen items seen).0))
      × (has_id id seen ≡ true → lists id (add_unseen items seen).0 ≡ false)
unfolding add_unseen container
add_unseen-lists [] seen id = (ground arith, λ h. refl)
add_unseen-lists (item ∷ items) seen id = elim (Bool-cases (has_id item.id seen)) [
  | inl old ↦ rw old (add_unseen-lists items seen id)
  | inr unseen ↦
      let (h, k) = add_unseen-lists items (item.id ∷ seen) id in
      rw unseen (
        ground arith,
        λ q. elim (Bool-cases (item.id =? id)) [
          | inl same ↦
              let absent =
                subst (λ other. has_id other seen ≡ false) (=?_sound item.id id same) unseen in
              absurd (ground arith)
          | inr differs ↦ rw differs (k (ground arith))
        ],
      )
]

add_unseen-AreDistinct :
    (items : List Summary) (seen : List Text) → AreDistinct (add_unseen items seen).0
unfolding add_unseen container AreDistinct
add_unseen-AreDistinct [] seen = tt
add_unseen-AreDistinct (item ∷ items) seen = elim (Bool-cases (has_id item.id seen)) [
  | inl old ↦ rw old (add_unseen-AreDistinct items seen)
  | inr unseen ↦
      let (_, k) = add_unseen-lists items (item.id ∷ seen) item.id in
      rw unseen (k (ground (arith, =?_refl item.id)), add_unseen-AreDistinct items (item.id ∷ seen))
]

AreDistinct-append :
    (cs ds : List Container)
    → AreDistinct cs
    → AreDistinct ds
    → ((id : Text) → lists id cs ≡ true → lists id ds ≡ false)
    → AreDistinct (cs ++ ds)
unfolding AreDistinct
AreDistinct-append [] ds h k apart = k
AreDistinct-append (c ∷ cs) ds (h, hs) k apart = (
  ground (arith, lists-append c.id cs ds, h, apart c.id, =?_refl c.id),
  AreDistinct-append cs ds hs k (λ id l. apart id (ground arith)),
)

abbrev pub holds : Text → List Summary → Bool
holds id items = any (λ (i : Summary). i.id =? id) items

add_unseen-holds :
    (items : List Summary) (seen : List Text) (id : Text)
    → has_id id (add_unseen items seen).1 ≡ (has_id id seen || holds id items)
unfolding add_unseen
add_unseen-holds [] seen id = ground arith
add_unseen-holds (item ∷ items) seen id = elim (Bool-cases (has_id item.id seen)) [
  | inl old ↦ rw old (elim (Bool-cases (item.id =? id)) [
    | inl same ↦
        let present = subst (λ other. has_id other seen ≡ true) (=?_sound item.id id same) old in
        rw (add_unseen-holds items seen id) (ground arith)
    | inr differs ↦ rw (add_unseen-holds items seen id, differs) refl
  ])
  | inr unseen ↦ rw unseen (rw (add_unseen-holds items (item.id ∷ seen) id) (ground arith))
]

-- What List makes of the two answers.
pub record IsListing (raw legacy : List Summary) (cs : List Container) : Type 0 where
  pub distinct : AreDistinct cs
  pub complete : (id : Text) → lists id cs ≡ (holds id raw || holds id legacy)

-- If both requests are answered, List succeeds; no two of its containers have one identifier, and it
-- has a container of an identifier exactly when one of the answers has.
pub list-IsListing :
    (w : World) (s : Sys) (raw legacy : List Summary)
    → (managed_by w managed_label s).0 ≡ ok raw
    → (managed_by w legacy_managed_label (managed_by w managed_label s).1).0 ≡ ok legacy
    → (cs : List Container) × ((list w s).0 ≡ ok cs) × IsListing raw legacy cs
unfolding list
list-IsListing w s raw legacy h k =
    let (first, seen) = add_unseen raw [] in
    let second = (add_unseen legacy seen).0 in
    (
      first ++ second,
      rw h (rw k refl),
      record {
        distinct =
            AreDistinct-append first second (add_unseen-AreDistinct raw [])
              (add_unseen-AreDistinct legacy seen)
              (λ id l.
                let (from_raw, _) = add_unseen-lists raw [] id in
                let (_, skipped) = add_unseen-lists legacy seen id in skipped (rw from_raw l));
        complete = λ id.
            let (from_raw, _) = add_unseen-lists raw [] id in
            let (from_both, skipped) = add_unseen-lists legacy seen id in
            ground (
              arith,
              lists-append id first second,
              from_raw,
              from_both,
              add_unseen-holds raw [] id,
              add_unseen-holds legacy seen id,
            );
      },
    )
