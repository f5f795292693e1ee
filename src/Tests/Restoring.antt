-- ===== src/Tests/Restoring.antt =====
-- A restore that is given up, on concrete Docker engines.
use docker_control.Prelude.{false, not, ◌||◌, [], ◌≡◌, refl, sym, ◌∙◌, arith, ◌=?◌}
use docker_control.Errors.{ok, err}
use docker_control.Text.{codes}
use docker_control.Types.Keys.{valid_key, valid_snapshot_id}
use docker_control.Engine.Model.{
  label, endpoint_label, legacy_endpoint_label, CreateSpec, Container, key_label, image_label,
  snapshot_label, snapshot_key_label, snapshot_id_label, snapshot_name_label, snapshot_source_label,
}
use docker_control.Engine.Requests.{json, empty, docker_status}
use docker_control.Engine.Sandboxes.{
  container, find, wait_loop, wait_for_ready, inspect_readiness, refine, now, pause,
}
use docker_control.Engine.Lifecycle.{create_sandbox, start_created, after_start}
use docker_control.Engine.SnapshotImages.{with_id}
use docker_control.Engine.Snapshots.{find_snapshot, list_all_snapshots, restore_snapshot}
use docker_control.Engine.Pulls.{new_engine}
use docker_control.Engine.Effects.{Grows}
use docker_control.Engine.Effects.Creation.{Spares, Fresh}
use docker_control.Engine.Effects.Restoring.{restored, restore_snapshot-Spares}
use docker_control.Engine.Effects.Abandoned.{
  KeepsAll, creation, starting, waiting, restore_abandons,
}
use docker_control.Tests.Engines.{
  sandbox_key, snapshot_id, old, first_snapshot, no_answer, slow, silent, spec,
}

snapshot_found : (find_snapshot slow sandbox_key snapshot_id new_engine).0 ≡ ok first_snapshot
unfolding find_snapshot valid_snapshot_id valid_key list_all_snapshots json docker_status with_id
    label ◌=?◌ snapshot_label snapshot_id_label snapshot_key_label snapshot_name_label
    snapshot_source_label
snapshot_found = refl

old_found_behind :
    (find slow sandbox_key (find_snapshot slow sandbox_key snapshot_id new_engine).1).0 ≡ ok old
unfolding find find_snapshot valid_key json docker_status
old_found_behind = refl

new_is_Fresh : Fresh slow (codes "old")
unfolding docker_status
new_is_Fresh t name b h = let e : ok (codes "new") ≡ ok (codes "old") = h in ground arith

abbrev unready : Container
unready = record {
  id = codes "new";
  name = codes "sandbox-key-0001-restore-012345";
  key = sandbox_key;
  image = codes "python";
  state = codes "running";
  ready = false;
  readiness = codes "starting";
  controlled_endpoint = [];
  created_at = 0;
}

restored-unready :
    (restored slow sandbox_key snapshot_id (spec (codes "python")) new_engine first_snapshot old).0
    ≡ ok unready
unfolding find find_snapshot create_sandbox valid_snapshot_id valid_key list_all_snapshots json
    docker_status empty with_id label ◌=?◌ key_label image_label snapshot_label snapshot_id_label
    snapshot_key_label snapshot_name_label snapshot_source_label start_created after_start
    wait_for_ready wait_loop inspect_readiness refine container endpoint_label legacy_endpoint_label
    now pause
restored-unready = refl

stays_unready :
    (c : Container)
    → (restored slow sandbox_key snapshot_id
        (spec (codes "python"))
        new_engine
        first_snapshot
        old).0
      ≡ ok c
    → c.ready ≡ false
stays_unready c h = let e : ok unready ≡ ok c = sym restored-unready ∙ h in cc

restore_snapshot-Spares_example :
    Grows
      (Spares (codes "old"))
      []
      (restore_snapshot slow sandbox_key snapshot_id (spec (codes "python")) new_engine).1.trace
restore_snapshot-Spares_example =
    restore_snapshot-Spares slow sandbox_key snapshot_id (spec (codes "python")) new_engine
      first_snapshot old snapshot_found old_found_behind new_is_Fresh stays_unready

abbrev wanted : CreateSpec
wanted = spec (codes "python")

accepted :
    (not (valid_key sandbox_key)
      || not (valid_snapshot_id snapshot_id)
      || not (wanted.key =? sandbox_key))
    ≡ false
unfolding valid_key valid_snapshot_id ◌=?◌
accepted = refl

silent_snapshot_found :
    (find_snapshot silent sandbox_key snapshot_id new_engine).0 ≡ ok first_snapshot
unfolding find_snapshot valid_snapshot_id valid_key list_all_snapshots json docker_status with_id
    label ◌=?◌ snapshot_label snapshot_id_label snapshot_key_label snapshot_name_label
    snapshot_source_label
silent_snapshot_found = refl

silent-old_found :
    (find silent sandbox_key (find_snapshot silent sandbox_key snapshot_id new_engine).1).0 ≡ ok old
unfolding find find_snapshot valid_key json docker_status
silent-old_found = refl

silent_created :
    (creation silent sandbox_key snapshot_id wanted new_engine first_snapshot old
      (codes "new")
      no_answer).0
    ≡ ok (codes "new")
unfolding json docker_status
silent_created = refl

silent_started :
    (starting silent sandbox_key snapshot_id wanted new_engine first_snapshot old
      (codes "new")
      no_answer).0
    ≡ ok tt
unfolding json docker_status empty
silent_started = refl

silent_waited :
    (waiting silent sandbox_key snapshot_id wanted new_engine first_snapshot old
      (codes "new")
      no_answer).0
    ≡ err no_answer
unfolding wait_for_ready wait_loop inspect_readiness json
silent_waited = refl

restore_abandons_example :
    ((restore_snapshot silent sandbox_key snapshot_id wanted new_engine).0 ≡ err no_answer)
    × Grows KeepsAll [] (restore_snapshot silent sandbox_key snapshot_id wanted new_engine).1.trace
restore_abandons_example =
    restore_abandons silent sandbox_key snapshot_id wanted new_engine first_snapshot old
      (codes "new") no_answer accepted silent_snapshot_found silent-old_found silent_created
      silent_started silent_waited
