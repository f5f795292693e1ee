-- ===== src/Engine/SnapshotImages.antt =====
-- Snapshots as images with labels: the pure parts of listSnapshots and findSnapshot of
-- internal/controller/docker.go, and dockerLabelChange.
pub mod Quoting
pub mod Order
use docker_control.Prelude.{
  ℕ, List, [], ◌∷◌, ◌++◌, Option, none, some, ltb, ◌==◌, ◌=?◌, if◌then◌else◌,
}
use docker_control.Errors.{Result, ok, err, err_not_found}
use docker_control.Text.{Text, codes}
use docker_control.Types.Keys.{valid_snapshot_id}
use docker_control.Engine.Model.{
  label, snapshot_key_label, snapshot_id_label, snapshot_name_label, snapshot_source_label,
  ImageSummary, Snapshot,
}

-- The first tag, unless it is missing or "<none>:<none>"; else the identifier.
abbrev pub image_name : ImageSummary → List Text → Text
image_name image [] = image.id
image_name image (tag ∷ tags) = if tag =? codes "<none>:<none>" then image.id else tag

abbrev pub snapshot_of : ImageSummary → Snapshot
snapshot_of image = record {
  id = label snapshot_id_label image.labels;
  key = label snapshot_key_label image.labels;
  name = label snapshot_name_label image.labels;
  image = image_name image image.repo_tags;
  source_image = label snapshot_source_label image.labels;
  created_at = image.created;
  size_bytes = image.size;
}

-- The loop of listSnapshots: images without a valid identifier are skipped.
unfoldable pub snapshots_of : List ImageSummary → List Snapshot
snapshots_of [] = []
snapshots_of (image ∷ images) =
    let rest = snapshots_of images in
    if valid_snapshot_id (label snapshot_id_label image.labels)
    then snapshot_of image ∷ rest
    else rest

-- sort.Slice by CreatedAt, the latest first; the order of equal times is the given one here, and
-- unspecified in Go.
unfoldable pub insert_latest : Snapshot → List Snapshot → List Snapshot
insert_latest x [] = x ∷ []
insert_latest x (y ∷ ys) =
    if ltb x.created_at y.created_at then y ∷ insert_latest x ys else x ∷ y ∷ ys

unfoldable pub sort_latest : List Snapshot → List Snapshot
unfolding insert_latest
sort_latest [] = []
sort_latest (x ∷ xs) = insert_latest x (sort_latest xs)

-- `for _, snapshot := range snapshots { if snapshot.ID == id … }`
unfoldable pub with_id : Text → List Snapshot → Option Snapshot
with_id id [] = none
with_id id (x ∷ xs) = if x.id =? id then some x else with_id id xs

abbrev pub or_not_found : Option Snapshot → Result Snapshot
or_not_found none = err err_not_found
or_not_found (some x) = ok x

-- dockerLabelChange; strings.NewReplacer replaces in one pass.
unfoldable pub escape_quoted : Text → Text
escape_quoted [] = []
escape_quoted (c ∷ s) =
    (if c == b'\\' then b'\\' ∷ b'\\' ∷ [] else if c == b'"' then b'\\' ∷ b'"' ∷ [] else c ∷ [])
    ++ escape_quoted s

unfoldable pub docker_label_change : Text → Text → Text
unfolding escape_quoted
docker_label_change key value =
    codes "LABEL " ++ (key ++ (codes "=" ++ (b'"' ∷ (escape_quoted value ++ b'"' ∷ []))))
