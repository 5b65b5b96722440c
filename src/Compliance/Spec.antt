-- ===== src/Compliance/Spec.antt =====
-- The maps of a specification: populateSpecDataToMaps of pkg/compliance/io.go and mapKinds of util.go.
use starboard.Prelude.{
  String, ◌≡◌, refl, false, List, [], ◌∷◌, ◌++◌, Map, lookup, insert, lookup-insert, ◌==◌,
  if◌then◌else◌, eq_iff, eq_refl, append_assoc, append-nil, Bool-cases, inl, inr, sym, ◌∙◌,
}
use starboard.Compliance.{Control, ReportSpec, SpecDataMapping}
use starboard.Compliance.Checks.{resources_of}

-- `values` lists the members of a set of the
-- texts that were added to it.
module _ (values : List String → List String) where
  expand : List String → List String
  expand [] = []
  expand (resource ∷ resources) =
      let rest = expand resources in
      if resource == "Workload"
      then "Pod" ∷ "ReplicationController" ∷ "ReplicaSet" ∷ "StatefulSet" ∷ "DaemonSet" ∷ "CronJob"
        ∷ "Job" ∷ rest
      else resource ∷ rest

  map_kinds : Control → List String
  unfolding expand
  map_kinds control = values (expand control.kinds)

  add_ids : String → List String → Map (List String) → Map (List String)
  add_ids control_id [] m = m
  add_ids control_id (item ∷ items) m =
      add_ids control_id items
        (insert control_id (resources_of (lookup control_id m) ++ item ∷ []) m)

  -- An entry of a control, blank where there is none yet.
  with_entry : String → Map (List String) → Map (List String)
  with_entry control_id m = insert control_id (resources_of (lookup control_id m)) m

  -- The body of the loop over the controls.
  add_control : Control → SpecDataMapping → SpecDataMapping
  unfolding map_kinds add_ids with_entry
  add_control control smd =
      let kinds = map_kinds control in
      record {
        scanner_resource_list_names =
            add_ids control.scanner kinds
              (with_entry control.scanner smd.scanner_resource_list_names);
        control_id_control_object =
            insert control.id (record control { kinds = kinds }) smd.control_id_control_object;
        control_check_ids = add_ids control.id control.checks smd.control_check_ids;
        control_id_resources =
            add_ids control.id kinds (with_entry control.id smd.control_id_resources);
      }

  add_controls : List Control → SpecDataMapping → SpecDataMapping
  unfolding add_control
  add_controls [] smd = smd
  add_controls (control ∷ controls) smd = add_controls controls (add_control control smd)

  unfoldable pub populate_spec_data_to_maps : ReportSpec → SpecDataMapping
  unfolding add_controls
  populate_spec_data_to_maps spec = add_controls spec.controls (record {
    scanner_resource_list_names = [];
    control_id_control_object = [];
    control_check_ids = [];
    control_id_resources = [];
  })

  -- The checks of the controls with an identifier, in the order of the specification.
  abbrev pub checks_with : String → List Control → List String
  checks_with id [] = []
  checks_with id (control ∷ controls) =
      let rest = checks_with id controls in
      if control.id == id then control.checks ++ rest else rest

  add_ids_here :
      (id : String) (items : List String) (m : Map (List String))
      → resources_of (lookup id (add_ids id items m)) ≡ resources_of (lookup id m) ++ items
  unfolding add_ids
  add_ids_here id [] m = simp append-nil
  add_ids_here id (item ∷ items) m = simp (
    add_ids_here id items (insert id (resources_of (lookup id m) ++ item ∷ []) m),
    lookup-insert,
    eq_refl,
    append_assoc,
  )

  add_ids_there :
      (id asked : String) (items : List String) (m : Map (List String))
      → (id == asked) ≡ false
      → lookup asked (add_ids id items m) ≡ lookup asked m
  unfolding add_ids
  add_ids_there id asked [] m other = refl
  add_ids_there id asked (item ∷ items) m other = simp (
    add_ids_there id asked items (insert id (resources_of (lookup id m) ++ item ∷ []) m) other,
    lookup-insert,
    other,
  )

  add_ids_at :
      (id asked : String) (items : List String) (m : Map (List String))
      → resources_of (lookup asked (add_ids id items m)) ≡ (
          if id == asked
          then resources_of (lookup asked m) ++ items
          else resources_of (lookup asked m))
  add_ids_at id asked items m = elim (Bool-cases (id == asked)) [
    | inl same ↦ rw (sym ((eq_iff id asked).0 same)) (simp (add_ids_here, eq_refl))
    | inr other ↦ simp (add_ids_there id asked items m other, other)
  ]

  add_controls-checks :
      (id : String) (controls : List Control) (smd : SpecDataMapping)
      → resources_of (lookup id (add_controls controls smd).control_check_ids)
        ≡ resources_of (lookup id smd.control_check_ids) ++ checks_with id controls
  unfolding add_controls add_control
  add_controls-checks id [] smd = simp append-nil
  add_controls-checks id (control ∷ controls) smd =
      add_controls-checks id controls (add_control control smd)
      ∙ elim (Bool-cases (control.id == id)) [
        | inl same ↦ simp (add_ids_at, same, append_assoc)
        | inr other ↦ simp (add_ids_at, other)
      ]

  -- The maps of a specification give for each identifier of a control the checks of all controls that have it.
  pub populate_spec_data_to_maps-checks :
      (id : String) (spec : ReportSpec)
      → resources_of (lookup id (populate_spec_data_to_maps spec).control_check_ids)
        ≡ checks_with id spec.controls
  unfolding populate_spec_data_to_maps lookup
  populate_spec_data_to_maps-checks id spec = add_controls-checks id spec.controls _
