-- ===== src/Tests/Limits.antt =====
-- Concrete lists of containers and snapshots, and their limits.
use docker_control.Prelude.{
  true, false, List, [], ◌∷◌, ◌++◌, ◌≡◌, refl, some, pos, arith, ◌=?◌, ◌==◌, ◌≤◌, length,
}
use docker_control.Errors.{ok, err}
use docker_control.Text.{Text, codes}
use docker_control.Types.Keys.{valid_key, valid_snapshot_id}
use docker_control.Engine.Model.{
  label, CreateSpec, Container, ImageSummary, managed_label, snapshot_label, snapshot_key_label,
  snapshot_id_label, snapshot_name_label, snapshot_source_label,
}
use docker_control.Engine.Requests.{json, docker_status}
use docker_control.Engine.Sandboxes.{container}
use docker_control.Engine.Lifecycle.{list, ensure}
use docker_control.Engine.Snapshots.{list_all_snapshots}
use docker_control.Engine.Pulls.{new_engine}
use mathlib.Core.Path.{subst, sym, ◌∙◌}
use docker_control.Engine.Monad.{Sys}
use docker_control.Engine.Effects.{Grows, Adds, Yields}
use docker_control.Engine.Effects.Queries.{IsQuery}
use docker_control.Tests.Engines.{sandbox_key, old, saved, first_snapshot, slow, spec}
use docker_control.Types.Keys.{valid_snapshot_name}
use docker_control.Errors.{err_snapshot_limit, wrap_before}
use docker_control.Text.{itoa, trim_space, contains_any}
use docker_control.Engine.Model.{legacy_managed_label}
use docker_control.Engine.Lifecycle.{managed_by, add_unseen}
use docker_control.Engine.Lifecycle.Listing.{IsListing, list-IsListing}
use docker_control.Engine.SnapshotImages.{
  snapshots_of, sort_latest, docker_label_change, escape_quoted,
}
use docker_control.Engine.SnapshotImages.Order.{
  IsLatestFirst, count, count_images, sort_latest-snapshots_of,
}
use docker_control.Engine.SnapshotImages.Quoting.{
  is_docker_special, IsPlain, unquote, unquote-docker_label_change,
}
use docker_control.Engine.Snapshots.{list_snapshots, create_snapshot}
use docker_control.Engine.Effects.Limits.{
  create_snapshot-limit, Uncreated, IsFull, ensure-Uncreated,
}

abbrev two_images : List ImageSummary
two_images = saved ∷ record saved { created = 250 } ∷ []

sort_latest-snapshots_of_example :
    IsLatestFirst (sort_latest (snapshots_of two_images))
    × (count (λ x. x.created_at == 250) (sort_latest (snapshots_of two_images))
        ≡ count_images (λ x. x.created_at == 250) two_images)
sort_latest-snapshots_of_example = sort_latest-snapshots_of two_images (λ x. x.created_at == 250)

unquote-docker_label_change_example :
    (text : Text) × (docker_label_change (codes "name") (codes "a\"b")
      ≡ codes "LABEL " ++ (codes "name" ++ (codes "=" ++ (b'"' ∷ text))))
    × (unquote is_docker_special false text ≡ some (codes "a\"b", []))
unfolding IsPlain
unquote-docker_label_change_example =
    unquote-docker_label_change (codes "name") (codes "a\"b") (refl, (refl, (refl, tt)))

-- A dollar is left as it is, in a name that validSnapshotName accepts.
dollar_not_escaped :
    (docker_label_change (codes "name") (codes "a$b") ≡ codes "LABEL name=\"a$b\"")
    × (valid_snapshot_name (codes "a$b") ≡ true)
unfolding docker_label_change escape_quoted valid_snapshot_name trim_space contains_any ◌=?◌
dollar_not_escaped = (refl, refl)

slow_managed : (managed_by slow managed_label new_engine).0 ≡ ok (old ∷ [])
unfolding json docker_status
slow_managed = refl

slow_legacy :
    (managed_by slow legacy_managed_label (managed_by slow managed_label new_engine).1).0
    ≡ ok (old ∷ [])
unfolding json docker_status
slow_legacy = refl

list-IsListing_example :
    (cs : List Container) × ((list slow new_engine).0 ≡ ok cs) × IsListing (old ∷ []) (old ∷ []) cs
list-IsListing_example =
    list-IsListing slow new_engine (old ∷ []) (old ∷ []) slow_managed slow_legacy

key_is_valid : valid_key sandbox_key ≡ true
unfolding valid_key
key_is_valid = refl

name_is_valid : valid_snapshot_name (codes "second") ≡ true
unfolding valid_snapshot_name trim_space contains_any ◌=?◌
name_is_valid = refl

one_listed : (list_snapshots slow sandbox_key new_engine).0 ≡ ok (first_snapshot ∷ [])
unfolding list_snapshots list_all_snapshots valid_key valid_snapshot_id json docker_status label
    ◌=?◌ snapshots_of sort_latest snapshot_label snapshot_id_label snapshot_key_label
    snapshot_name_label snapshot_source_label
one_listed = refl

create_snapshot-limit_example :
    ((create_snapshot slow sandbox_key (codes "second") 1 new_engine).0
      ≡ err (wrap_before err_snapshot_limit (codes ": " ++ (itoa 1 ++ codes " per sandbox"))))
    × Grows IsQuery [] (create_snapshot slow sandbox_key (codes "second") 1 new_engine).1.trace
create_snapshot-limit_example =
    create_snapshot-limit slow sandbox_key (codes "second") 1 (first_snapshot ∷ []) new_engine
      key_is_valid name_is_valid one_listed (omega arith)

ok-Containers : (xs ys : List Container) → ok xs ≡ ok ys → xs ≡ ys
ok-Containers xs ys e = cc

abbrev foreign : CreateSpec
foreign = record (spec (codes "python")) { key = codes "short" }

abbrev listed_old : Container
listed_old = container old

slow_listed : (s : Sys) → (list slow s).0 ≡ ok (listed_old ∷ [])
unfolding list json docker_status add_unseen container ◌=?◌
slow_listed s = refl

slow-IsFull : IsFull slow 1
slow-IsFull s managed e =
    subst (λ cs. 1 ≤ length cs) (ok-Containers _ managed (sym (slow_listed s) ∙ e)) (omega arith)

ensure-Uncreated_example :
    Adds Uncreated (ensure slow foreign true (pos 1))
    × Yields (λ p. p.1 ≡ false) (ensure slow foreign true (pos 1))
ensure-Uncreated_example = ensure-Uncreated slow foreign true 1 slow-IsFull
