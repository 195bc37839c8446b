-- ===== src/Coverage/Evidence.antt =====
-- What the substantiation by evidence makes of each link, on its own (app/services/coverage_service.py).
use aigov.Coverage.Links.{
  EffectiveLink, Link, ScopeClause, apply_evidence_substantiation, fetch_qualifying_links,
  is_satisfied, items_with_evidence, substantiated, taken_as_is,
}
use aigov.Coverage.Matrix.{links_in_play}
use aigov.Model.Enums.Knowledge.{CoverageStatus}
use aigov.Model.Rows.Assessment.{AssessmentItemEvidence}
use aigov.Model.Session.{Session}
use aigov.Prelude.{
  All, All-map, Bool, Bool-cases, List, [], any_row, arith, contains, false, if◌then◌else◌, inl,
  inr, is_empty, map, nat_eq, not, refl, true, where_rows, ℕ, ◌&&◌, ◌==◌, ◌∷◌, ◌≡◌,
}
use mathlib.Core.Bool.{or-true}

-- There is evidence for the item.
abbrev pub has_evidence : Session → ℕ → Bool
has_evidence db item_id = any_row (λ row. row.item_id == item_id) db.item_evidence

-- A link as it counts, with and without the demand for evidence.
abbrev pub as_counted : Bool → Session → Link → EffectiveLink
as_counted require_evidence db l =
    if require_evidence && is_satisfied l && not (has_evidence db l.item_id)
    then record { link = l; effective_coverage = CoverageStatus.partial; downgraded = true }
    else taken_as_is l

listed_evidence :
    (item_id : ℕ) (listed : List ℕ) (rows : List AssessmentItemEvidence)
    → contains item_id listed ≡ true
    → contains item_id
        (map (λ row. row.item_id) (where_rows (λ row. contains row.item_id listed) rows))
      ≡ any_row (λ row. row.item_id == item_id) rows
listed_evidence item_id listed [] h = refl
listed_evidence item_id listed (row ∷ rows) h =
    let rest = listed_evidence item_id listed rows h in
    elim (Bool-cases (row.item_id == item_id)) [
      | inl own ↦
          let same : row.item_id ≡ item_id = ground arith in
          let also : contains row.item_id listed ≡ true = rw same h in rw (also, own) refl
      | inr other ↦ elim (Bool-cases (contains row.item_id listed)) [
        | inl also ↦ rw (also, other) rest
        | inr out ↦ rw (out, other) rest
      ]
    ]

not_empty :
    (item_id : ℕ) (listed : List ℕ) → contains item_id listed ≡ true → is_empty listed ≡ false
not_empty item_id [] h = cc
not_empty item_id (i ∷ listed) h = refl

abbrev satisfied_ids : List Link → List ℕ
satisfied_ids links = map (λ l. l.item_id) (where_rows is_satisfied links)

still_listed :
    (item_id : ℕ) (l : Link) (links : List Link)
    → contains item_id (satisfied_ids links) ≡ true
    → contains item_id (satisfied_ids (l ∷ links)) ≡ true
still_listed item_id l links h = elim (Bool-cases (is_satisfied l)) [
  | inl yes_it ↦ rw yes_it (rw h (or-true (l.item_id == item_id)))
  | inr no_it ↦ rw no_it h
]

first_listed :
    (l : Link) (links : List Link)
    → is_satisfied l ≡ true
    → contains l.item_id (satisfied_ids (l ∷ links)) ≡ true
first_listed l links h = rw h (rw ((nat_eq.beq_iff l.item_id l.item_id).1 refl) refl)

satisfied_listed :
    (links : List Link)
    → All (λ l. is_satisfied l ≡ true → contains l.item_id (satisfied_ids links) ≡ true) links
satisfied_listed [] = tt
satisfied_listed (l ∷ links) = (
  first_listed l links,
  All-map (λ m. is_satisfied m ≡ true → contains m.item_id (satisfied_ids links) ≡ true)
      (λ m. is_satisfied m ≡ true → contains m.item_id (satisfied_ids (l ∷ links)) ≡ true)
      (λ m h s. still_listed m.item_id l links (h s)) links (satisfied_listed links),
)

map-same :
    (f g : Link → EffectiveLink) (links : List Link)
    → All (λ l. f l ≡ g l) links
    → map f links ≡ map g links
map-same f g [] h = refl
map-same f g (l ∷ links) h = rw (h.0, map-same f g links h.1) refl

substantiated-as_counted :
    (links : List Link) (db : Session) (l : Link)
    → (is_satisfied l ≡ true → contains l.item_id (satisfied_ids links) ≡ true)
    → substantiated (items_with_evidence links db) l ≡ as_counted true db l
substantiated-as_counted links db l listed = elim (Bool-cases (is_satisfied l)) [
  | inr no_it ↦ rw (no_it) refl
  | inl yes_it ↦
      let here = listed yes_it in
      rw
        (
          not_empty l.item_id (satisfied_ids links) here,
          listed_evidence l.item_id (satisfied_ids links) db.item_evidence here,
        )
        refl
]

-- The links in play are those that qualify, each as it counts on its own.
pub links_in_play-as_counted :
    (tenant_id : ℕ) (scope_clause : ScopeClause) (include_unapproved require_evidence : Bool)
    (db : Session)
    → links_in_play tenant_id scope_clause include_unapproved require_evidence db
      ≡ map
          (as_counted require_evidence db)
          (fetch_qualifying_links tenant_id scope_clause include_unapproved db)
unfolding links_in_play apply_evidence_substantiation
links_in_play-as_counted tenant_id scope_clause include false db = refl
links_in_play-as_counted tenant_id scope_clause include true db =
    let found = fetch_qualifying_links tenant_id scope_clause include db in
    map-same (substantiated (items_with_evidence found db)) (as_counted true db) found
      (All-map _ _ (λ l. substantiated-as_counted found db l) found (satisfied_listed found))
