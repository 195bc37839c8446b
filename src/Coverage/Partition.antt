-- ===== src/Coverage/Partition.antt =====
-- Each control of the library is covered or unaddressed, and not both
-- (app/services/coverage_service.py).
use aigov.Coverage.Links.{EffectiveLink}
use aigov.Coverage.Matrix.{
  CoverageMatrix, build_unaddressed, control_reads, control_round, coverage_matrix, kept_mappings,
  load_controls, load_framework_maps, maps_to,
}
use aigov.Coverage.Rollup.{load_controls-keyed}
use aigov.Model.Enums.Knowledge.{Framework, framework_eq}
use aigov.Model.Rows.Knowledge.{Control, ControlFrameworkMap}
use aigov.Model.Session.{Session}
use aigov.Prelude.{
  All-get_key, Bool, Bool-cases, List, Option, String, [], any_row, any_row-and, any_row-congr,
  any_row-group_by, any_row-join_rows, any_row-map, any_row-weaker, any_row-where_rows, arith,
  contains, get_group, get_group-group_by, get_key, group_by, if◌then◌else◌, inl, inr, is_empty,
  is_empty-where_rows, is_some, map, nat_eq, none, not, refl, same_key, some, sym, true, where_rows,
  ℕ, ◌&&◌, ◌==◌, ◌∙◌, ◌∷◌, ◌≡◌,
}

-- A row with a given key meets a condition on keys as the key does.
any_row-by_key :
    {A : Type 0} (id : A → ℕ) (q : ℕ → Bool) (k : ℕ) (rows : List A)
    → any_row (λ r. q (id r) && (id r == k)) rows ≡ (any_row (λ r. id r == k) rows && q k)
any_row-by_key id q k rows =
    any_row-congr _ (λ r. (id r == k) && q k) rows
      (λ r. elim (Bool-cases (id r == k)) [
        | inl h ↦ rw (same_key {k = id r} {l = k} h) (ground arith)
        | inr h ↦ rw h (ground arith)
      ])
    ∙ any_row-and (λ r. id r == k) (q k) rows

is_known : Session → ℕ → Bool
is_known db k = any_row (λ row. row.id == k) db.controls

get_key-of_rows :
    (k : ℕ) (rows : List Control)
    → is_some (get_key k (map (λ c. (c.id, c)) rows)) ≡ any_row (λ c. c.id == k) rows
get_key-of_rows k [] = refl
get_key-of_rows k (c ∷ rows) = ground (arith, get_key-of_rows k rows)

module _ (ids : List ℕ) (k : ℕ) (wanted : contains k ids ≡ true) (db : Session) where
  get_key-load_controls :
      is_some (get_key k (load_controls ids db)) ≡ any_row (λ c. c.id == k) db.controls
  unfolding load_controls
  get_key-load_controls = go ids wanted
    where
      go :
          (ids : List ℕ)
          → contains k ids ≡ true
          → is_some (
              get_key k (
                if is_empty ids
                then []
                else map (λ c. (c.id, c)) (where_rows (λ c. contains c.id ids) db.controls)))
            ≡ any_row (λ c. c.id == k) db.controls
      go [] w = cc
      go (i ∷ ids) w =
          get_key-of_rows k (where_rows (λ c. contains c.id (i ∷ ids)) db.controls)
          ∙ any_row-where_rows (λ c. c.id == k) (λ c. contains c.id (i ∷ ids)) db.controls
          ∙ any_row-by_key (λ c. c.id) (λ j. contains j (i ∷ ids)) k db.controls
          ∙ rw w (ground arith)

  get_group-load_framework_maps :
      get_group k (load_framework_maps ids db)
      ≡ where_rows
          (λ m. m.control_id == k)
          (where_rows (λ m. contains m.control_id ids) db.framework_maps)
  unfolding load_framework_maps
  get_group-load_framework_maps = go ids wanted
    where
      go :
          (ids : List ℕ)
          → contains k ids ≡ true
          → get_group k (
              if is_empty ids
              then []
              else group_by
                  (λ m. m.control_id)
                  (where_rows (λ m. contains m.control_id ids) db.framework_maps))
            ≡ where_rows
                (λ m. m.control_id == k)
                (where_rows (λ m. contains m.control_id ids) db.framework_maps)
      go [] w = cc
      go (i ∷ ids) w =
          get_group-group_by (λ m. m.control_id) k
            (where_rows (λ m. contains m.control_id (i ∷ ids)) db.framework_maps)

  any_row-of_maps :
      (f : Framework)
      → any_row
          (λ m. m.framework == f)
          (where_rows
            (λ m. m.control_id == k)
            (where_rows (λ m. contains m.control_id ids) db.framework_maps))
        ≡ maps_to (some f) db k
  any_row-of_maps f =
      any_row-where_rows _ _ (where_rows (λ m. contains m.control_id ids) db.framework_maps)
      ∙ any_row-where_rows (λ m. m.control_id == k && m.framework == f) _ db.framework_maps
      ∙ any_row-congr (λ m. contains m.control_id ids && (m.control_id == k && m.framework == f))
          (λ m. m.control_id == k && m.framework == f) db.framework_maps
          (λ m. elim (Bool-cases (m.control_id == k)) [
            | inl h ↦ rw (same_key {k = m.control_id} {l = k} h, wanted) refl
            | inr h ↦ rw h (ground arith)
          ])

  is_some-kept :
      (f : Framework) (mappings : List ControlFrameworkMap)
      → is_some (kept_mappings (some f) mappings) ≡ any_row (λ m. m.framework == f) mappings
  is_some-kept f mappings =
      let same = is_empty-where_rows (λ m. m.framework == f) mappings in ground arith

  kept_mappings-maps_to :
      (framework : Option Framework)
      → is_some (kept_mappings framework (get_group k (load_framework_maps ids db)))
        ≡ maps_to framework db k
  kept_mappings-maps_to none = refl
  kept_mappings-maps_to (some f) =
      is_some-kept f (get_group k (load_framework_maps ids db))
      ∙ rw get_group-load_framework_maps (any_row-of_maps f)

-- Whether a round of the loop yields a control.
any_row-control_round :
    (k : ℕ) (entry : ℕ × List EffectiveLink) (found : Option Control)
    (kept : Option (List ControlFrameworkMap))
    → ((control : Control) → found ≡ some control → control.id ≡ entry.0)
    → any_row (λ cr. cr.control_id == k) (control_round entry.1 found kept)
      ≡ ((is_some found && is_some kept) && (entry.0 == k))
any_row-control_round k entry none kept named = refl
any_row-control_round k entry (some control) none named = refl
any_row-control_round k entry (some control) (some mappings) named =
    rw (named control refl) (ground arith)

named_as_key :
    (ids : List ℕ) (db : Session) (k : ℕ) (control : Control)
    → get_key k (load_controls ids db) ≡ some control
    → control.id ≡ k
named_as_key ids db k control found =
    All-get_key (λ (j : ℕ) (c : Control). c.id ≡ j) k _ (load_controls-keyed ids db) found

module _ (framework : Option Framework) (by_control : List (ℕ × List EffectiveLink)) (db : Session)
    (k : ℕ) (known : is_known db k ≡ true) where
  abbrev ids : List ℕ
  ids = map (λ entry. entry.0) by_control

  -- What a round looks up.
  looked_up : ℕ × List EffectiveLink → Bool
  looked_up entry =
      is_some (get_key entry.0 (load_controls ids db))
      && is_some (kept_mappings framework (get_group entry.0 (load_framework_maps ids db)))

  looked_up-maps_to :
      (entry : ℕ × List EffectiveLink)
      → contains k ids ≡ true
      → (entry.0 == k) ≡ true
      → looked_up entry ≡ maps_to framework db k
  unfolding looked_up is_known
  looked_up-maps_to entry wanted h =
      rw (same_key {k = entry.0} {l = k} h, get_key-load_controls ids k wanted db, known)
        (kept_mappings-maps_to ids k wanted db framework)

  any_row-control_reads :
      any_row (λ cr. cr.control_id == k) (control_reads framework by_control db)
      ≡ (contains k ids && maps_to framework db k)
  unfolding control_reads looked_up
  any_row-control_reads =
      any_row-join_rows (λ cr. cr.control_id == k) _ by_control
      ∙ any_row-congr _ (λ entry. looked_up entry && (entry.0 == k)) by_control
          (λ entry. any_row-control_round k entry _ _ (named_as_key ids db entry.0))
      ∙ elim (Bool-cases (contains k ids)) [
        | inl wanted ↦
            any_row-congr _ (λ entry. (entry.0 == k) && maps_to framework db k) by_control
              (λ entry. elim (Bool-cases (entry.0 == k)) [
                | inl h ↦ rw (looked_up-maps_to entry wanted h, h) (ground arith)
                | inr h ↦ rw h (ground arith)
              ])
            ∙ any_row-and (λ entry. entry.0 == k) (maps_to framework db k) by_control
            ∙ rw (sym (any_row-map (λ i. i == k) (λ entry. entry.0) by_control)) refl
        | inr absent ↦
            any_row-weaker looked_up (λ entry. entry.0 == k) by_control
              (sym (any_row-map (λ i. i == k) (λ entry. entry.0) by_control) ∙ absent)
            ∙ rw absent refl
      ]

any_row-build_unaddressed :
    (in_play : List ℕ) (framework : Option Framework) (db : Session) (k : ℕ)
    → is_known db k ≡ true
    → any_row (λ u. u.control_id == k) (build_unaddressed in_play framework db)
      ≡ (not (contains k in_play) && maps_to framework db k)
unfolding build_unaddressed is_known
any_row-build_unaddressed in_play framework db k known =
    let open_for = λ (i : ℕ). not (contains i in_play) && maps_to framework db i in
    any_row-map (λ u. u.control_id == k) _ (where_rows (λ (c : Control). open_for c.id) db.controls)
    ∙ any_row-where_rows (λ c. c.id == k) (λ c. open_for c.id) db.controls
    ∙ any_row-by_key (λ c. c.id) open_for k db.controls
    ∙ rw known refl

-- Where a control of the library stands in a matrix.
pub record IsPlaced (framework : Option Framework) (links : List EffectiveLink) (db : Session)
    (m : CoverageMatrix) (k : ℕ) : Type 0 where
  pub as_covered :
      any_row (λ cr. cr.control_id == k) m.controls
      ≡ (any_row (λ e. e.link.control_id == k) links && maps_to framework db k)
  pub as_unaddressed :
      any_row (λ u. u.control_id == k) m.unaddressed_controls
      ≡ (not (any_row (λ e. e.link.control_id == k) links) && maps_to framework db k)

-- A control of the library is among the controls of the matrix exactly when a link to it qualifies
-- and it maps to the framework that is asked for, and among the unaddressed ones exactly when no
-- link to it qualifies and it maps to that framework. So without a framework each control is in one
-- of the two lists, and never in both.
pub coverage_matrix-IsPlaced :
    (scope : String) (scope_id : Option ℕ) (framework : Option Framework)
    (include_unapproved : Bool) (links : List EffectiveLink) (db : Session) (k : ℕ)
    → any_row (λ row. row.id == k) db.controls ≡ true
    → IsPlaced framework links db
        (coverage_matrix scope scope_id framework include_unapproved links db)
        k
unfolding coverage_matrix
coverage_matrix-IsPlaced scope scope_id framework include links db k known =
    let by_control = group_by (λ e. e.link.control_id) links in
    let groups = any_row-group_by k (λ (e : EffectiveLink). e.link.control_id) links in
    let in_play : contains k (map (λ entry. entry.0) by_control)
        ≡ any_row (λ e. e.link.control_id == k) links =
      any_row-map (λ i. i == k) (λ entry. entry.0) by_control ∙ groups in
    record {
      as_covered =
          any_row-control_reads framework by_control db k (unfold is_known in known)
          ∙ rw in_play refl;
      as_unaddressed =
          any_row-build_unaddressed (map (λ entry. entry.0) by_control) framework db k
            (unfold is_known in known)
          ∙ rw in_play refl;
    }
