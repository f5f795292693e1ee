-- ===== src/Engine/SnapshotImages/Order.antt =====
-- The answer of listSnapshots: which images it is made of, and in which order.
use docker_control.Prelude.{
  ℕ, ◌+◌, ◌≤◌, Bool, List, [], ◌∷◌, ◌≡◌, refl, ltb, if◌then◌else◌, arith, All, Bool-cases, inl, inr,
  ◌&&◌, ◌∙◌,
}
use docker_control.Types.Keys.{valid_snapshot_id}
use docker_control.Engine.Model.{label, snapshot_id_label, ImageSummary, Snapshot}
use docker_control.Engine.SnapshotImages.{snapshot_of, snapshots_of, insert_latest, sort_latest}

-- Each snapshot is at least as late as those behind it.
pub IsLatestFirst : List Snapshot → Type 0
IsLatestFirst [] = Unit
IsLatestFirst (x ∷ xs) = All (λ y. y.created_at ≤ x.created_at) xs × IsLatestFirst xs

-- How often a test holds.
pub count : (Snapshot → Bool) → List Snapshot → ℕ
count test [] = 0
count test (x ∷ xs) = (if test x then 1 else 0) + count test xs

All-insert_latest :
    (P : Snapshot → Type 0) (x : Snapshot) (xs : List Snapshot)
    → P x
    → All P xs
    → All P (insert_latest x xs)
unfolding insert_latest
All-insert_latest P x [] p ps = (p, tt)
All-insert_latest P x (y ∷ ys) p (q, qs) = elim (Bool-cases (ltb x.created_at y.created_at)) [
  | inl later ↦ rw later (q, All-insert_latest P x ys p qs)
  | inr first ↦ rw first (p, (q, qs))
]

All-weaken :
    (P Q : Snapshot → Type 0) (xs : List Snapshot)
    → ((x : Snapshot) → P x → Q x)
    → All P xs
    → All Q xs
All-weaken P Q [] f h = tt
All-weaken P Q (x ∷ xs) f (h, hs) = (f x h, All-weaken P Q xs f hs)

insert_latest-IsLatestFirst :
    (x : Snapshot) (xs : List Snapshot) → IsLatestFirst xs → IsLatestFirst (insert_latest x xs)
unfolding insert_latest IsLatestFirst
insert_latest-IsLatestFirst x [] h = (tt, tt)
insert_latest-IsLatestFirst x (y ∷ ys) (h, hs) = elim (Bool-cases (ltb x.created_at y.created_at)) [
  | inl later ↦ rw later (
    All-insert_latest (λ z. z.created_at ≤ y.created_at) x ys (ground arith) h,
    insert_latest-IsLatestFirst x ys hs,
  )
  | inr first ↦
      let above : y.created_at ≤ x.created_at = ground arith in
      rw first (
        (
          above,
          All-weaken (λ z. z.created_at ≤ y.created_at) (λ z. z.created_at ≤ x.created_at) ys
              (λ z l. omega (arith, above)) h,
        ),
        (h, hs),
      )
]

count-insert_latest :
    (test : Snapshot → Bool) (x : Snapshot) (xs : List Snapshot)
    → count test (insert_latest x xs) ≡ (if test x then 1 else 0) + count test xs
unfolding insert_latest count
count-insert_latest test x [] = refl
count-insert_latest test x (y ∷ ys) = elim (Bool-cases (ltb x.created_at y.created_at)) [
  | inl later ↦ rw later (omega (arith, count-insert_latest test x ys))
  | inr first ↦ rw first refl
]

sort_latest-IsLatestFirst : (xs : List Snapshot) → IsLatestFirst (sort_latest xs)
unfolding sort_latest IsLatestFirst
sort_latest-IsLatestFirst [] = tt
sort_latest-IsLatestFirst (x ∷ xs) =
    insert_latest-IsLatestFirst x (sort_latest xs) (sort_latest-IsLatestFirst xs)

count-sort_latest :
    (test : Snapshot → Bool) (xs : List Snapshot) → count test (sort_latest xs) ≡ count test xs
unfolding sort_latest count
count-sort_latest test [] = refl
count-sort_latest test (x ∷ xs) =
    omega (arith, count-insert_latest test x (sort_latest xs), count-sort_latest test xs)

-- An image that is a snapshot: its label holds a valid identifier.
abbrev pub is_snapshot : ImageSummary → Bool
is_snapshot image = valid_snapshot_id (label snapshot_id_label image.labels)

-- How many of the images are snapshots for which a test holds.
pub count_images : (Snapshot → Bool) → List ImageSummary → ℕ
count_images test [] = 0
count_images test (image ∷ images) =
    (if is_snapshot image && test (snapshot_of image) then 1 else 0) + count_images test images

count-snapshots_of :
    (test : Snapshot → Bool) (images : List ImageSummary)
    → count test (snapshots_of images) ≡ count_images test images
unfolding count count_images snapshots_of
count-snapshots_of test [] = refl
count-snapshots_of test (image ∷ images) =
    elim (Bool-cases (valid_snapshot_id (label snapshot_id_label image.labels))) [
      | inl good ↦ rw good (omega (arith, count-snapshots_of test images))
      | inr bad ↦ rw bad (omega (arith, count-snapshots_of test images))
    ]

-- The snapshots that are listed are in order, the latest first, and they are those of all the images
-- with a valid identifier: whatever test is made of a snapshot, it holds for as many in the list as
-- there are such images whose snapshot it holds for, so that none is dropped, repeated or made up.
pub sort_latest-snapshots_of :
    (images : List ImageSummary) (test : Snapshot → Bool)
    → IsLatestFirst (sort_latest (snapshots_of images))
      × (count test (sort_latest (snapshots_of images)) ≡ count_images test images)
sort_latest-snapshots_of images test = (
  sort_latest-IsLatestFirst (snapshots_of images),
  count-sort_latest test (snapshots_of images) ∙ count-snapshots_of test images,
)
