-- ===== src/Repair/Params.antt =====
-- The payload of a repair, and how its id is found again.
use axonops_operator.Prelude.{
  ◌≤◌, String, ◌≡◌, ◌≢◌, refl, true, false, Option, none, some, List, [], ◌∷◌, ◌++◌, arith, eq_iff,
}
use mathlib.Core.Bool.{false≢true}
use axonops_operator.Client.Repair.{ScheduledRepairEntry}
use axonops_operator.Repair.{Repair, not_nil, build_repair_params, find_repair_id_by_tag, has_tag}

not_nil-some : (o : Option (List String)) → (xs : List String) × (not_nil o ≡ some xs)
not_nil-some none = ([], refl)
not_nil-some (some xs) = (xs, refl)

parallel-ne-nil : ◌≢◌ {A = String} "Parallel" ""
parallel-ne-nil p = false≢true ((eq_iff "Parallel" "").1 p)

-- The payload holds no nil slice, no zero count and no empty parallelism, whatever the
-- specification leaves out.
pub build_repair_params_defaults :
    (r : Repair)
    → ((xs : List String) × ((build_repair_params r).tables ≡ some xs))
      × ((xs : List String) × ((build_repair_params r).blacklisted_tables ≡ some xs))
      × ((xs : List String) × ((build_repair_params r).nodes ≡ some xs))
      × ((xs : List String) × ((build_repair_params r).specific_data_centers ≡ some xs))
      × (1 ≤ (build_repair_params r).segments_per_node)
      × (1 ≤ (build_repair_params r).job_threads)
      × ((build_repair_params r).parallelism ≢ "")
unfolding build_repair_params
build_repair_params_defaults r = (
  not_nil-some r.spec.tables,
  not_nil-some r.spec.blacklisted_tables,
  not_nil-some r.spec.nodes,
  not_nil-some r.spec.specific_data_centers,
  ground arith,
  ground arith,
  ground (arith, eq_iff r.spec.parallelism "", parallel-ne-nil),
)

-- No entry has the tag on its first parameters.
abbrev pub NoneTagged : String → List ScheduledRepairEntry → Type 0
NoneTagged tag [] = Unit
NoneTagged tag (e ∷ es) = (has_tag tag e.tags ≡ false) × NoneTagged tag es

-- Among entries of which none has the tag no id is found; with an entry behind them that has the
-- tag, its id is found, whatever comes after.
pub find_repair_id_by_tag_lem :
    (tag : String) (before after : List ScheduledRepairEntry) (e : ScheduledRepairEntry)
    → NoneTagged tag before
    → has_tag tag e.tags ≡ true
    → (find_repair_id_by_tag before tag ≡ "")
      × (find_repair_id_by_tag (before ++ e ∷ after) tag ≡ e.id)
unfolding find_repair_id_by_tag
find_repair_id_by_tag_lem tag [] after e n h = (refl, rw h)
find_repair_id_by_tag_lem tag (b ∷ bs) after e (other, n) h =
    let (nowhere, first) = find_repair_id_by_tag_lem tag bs after e n h in
    (rw other nowhere, rw other first)
