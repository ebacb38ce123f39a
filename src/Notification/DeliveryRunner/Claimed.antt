-- ===== src/Notification/DeliveryRunner/Claimed.antt =====
-- What `ClaimDue` of internal/notification/adapter/out/postgres/repository.go gives to a round, where
-- the ids of the rows are distinct.
use go_pet_project.Base.{
  ℕ, Bool, List, [], ◌∷◌, ◌≡◌, ◌≢◌, refl, sym, ◌∙◌, subst, arith, All, select, take, inl, inr,
  Bool-cases,
}
use go_pet_project.Base.Int.{ℤ, pos, ◌≤ℤ◌}
use go_pet_project.Base.Sort.{order_by}
use go_pet_project.Base.Distinct.{
  All-select, All-take, All-order_by, IsDistinct, IsDistinct-select, IsDistinct-take,
  IsDistinct-order_by,
}
use go_pet_project.Time.{Time}
use go_pet_project.Errors.{ok, Result-cases, map_rows}
use go_pet_project.World.{Tables}
use go_pet_project.Notification.Delivery.{NotificationDelivery, restore_delivery}
use go_pet_project.Notification.Repository.Deliveries
use go_pet_project.Notification.DeliveryRunner.Recorded.{Matches}

abbrev pub id_of : NotificationDelivery → ℕ
id_of d = d.id

-- The rows that a round can go over.
pub record IsClaim (rows ds : List NotificationDelivery) : Type 0 where
  pub distinct : IsDistinct id_of ds
  pub counted : All (λ (d : NotificationDelivery). pos 0 ≤ℤ d.attempts) ds
  pub matched : All (λ (d : NotificationDelivery). Matches d rows) ds

Matches-others :
    (d : NotificationDelivery) (rows : List NotificationDelivery)
    → All (λ (r : NotificationDelivery). r.id ≢ d.id) rows
    → Matches d rows
Matches-others d [] h = tt
Matches-others d (r ∷ rs) (h, hs) = ((λ same. absurd (h same)), Matches-others d rs hs)

Matches-below :
    (r : NotificationDelivery) (rows ds : List NotificationDelivery)
    → All (λ (d : NotificationDelivery). d.id ≢ r.id) ds
    → All (λ (d : NotificationDelivery). Matches d rows) ds
    → All (λ (d : NotificationDelivery). Matches d (r ∷ rows)) ds
Matches-below r rows [] h m = tt
Matches-below r rows (d ∷ ds) (h, hs) (m, ms) =
    (((λ same. absurd (h (sym same))), m), Matches-below r rows ds hs ms)

-- A row that is selected is the one row with its id.
Matches-select :
    (p : NotificationDelivery → Bool) (rows : List NotificationDelivery)
    → IsDistinct id_of rows
    → All (λ (d : NotificationDelivery). Matches d rows) (select p rows)
Matches-select p [] h = tt
Matches-select p (r ∷ rs) (h, hs) =
    let rest =
      Matches-below r rs (select p rs)
        (All-select (λ (d : NotificationDelivery). d.id ≢ r.id) p rs h) (Matches-select p rs hs) in
    elim (Bool-cases (p r)) [
      | inl taken ↦ rw taken (((λ _. refl), Matches-others r rs h), rest)
      | inr other ↦ rw other rest
    ]

-- What the mapping of a row keeps and checks.
to_domain-ok :
    (row : NotificationDelivery) {d : NotificationDelivery}
    → Deliveries.to_domain row ≡ ok d
    → (d.id ≡ row.id) × (d.attempts ≡ row.attempts) × (pos 0 ≤ℤ d.attempts)
unfolding Deliveries.to_domain restore_delivery
to_domain-ok row h = ground arith

map_rows-All :
    (P Q : NotificationDelivery → Type 0) (rows : List NotificationDelivery)
    {ds : List NotificationDelivery}
    → ((row d : NotificationDelivery) → Deliveries.to_domain row ≡ ok d → P row → Q d)
    → map_rows Deliveries.to_domain rows ≡ ok ds
    → All P rows
    → All Q ds
unfolding map_rows
map_rows-All P Q [] {ds = []} f h all = tt
map_rows-All P Q [] {ds = d ∷ ds} f h all = absurd (ground arith)
map_rows-All P Q (row ∷ rows) {ds} f h (p, ps) = elim (Result-cases (Deliveries.to_domain row)) [
  | inr (_, bad) ↦ absurd (ground arith)
  | inl (d, good) ↦ elim (Result-cases (map_rows Deliveries.to_domain rows)) [
    | inr (_, bad) ↦ absurd (ground arith)
    | inl (rest, mapped) ↦
        let same : d ∷ rest ≡ ds = ground arith in
        subst (All Q) same (f row d good p, map_rows-All P Q rows f mapped ps)
  ]
]

map_rows-IsDistinct :
    (rows : List NotificationDelivery) {ds : List NotificationDelivery}
    → map_rows Deliveries.to_domain rows ≡ ok ds
    → IsDistinct id_of rows
    → IsDistinct id_of ds
unfolding map_rows
map_rows-IsDistinct [] {ds = []} h all = tt
map_rows-IsDistinct [] {ds = d ∷ ds} h all = absurd (ground arith)
map_rows-IsDistinct (row ∷ rows) {ds} h (p, ps) = elim (Result-cases (Deliveries.to_domain row)) [
  | inr (_, bad) ↦ absurd (ground arith)
  | inl (d, good) ↦ elim (Result-cases (map_rows Deliveries.to_domain rows)) [
    | inr (_, bad) ↦ absurd (ground arith)
    | inl (rest, mapped) ↦
        let same : d ∷ rest ≡ ds = ground arith in
        let first : d.id ≡ row.id = (to_domain-ok row good).0 in
        let others =
          map_rows-All (λ (r : NotificationDelivery). r.id ≢ row.id)
            (λ (e : NotificationDelivery). e.id ≢ d.id) rows
            (λ r e fine apart clash. apart (sym (to_domain-ok r fine).0 ∙ clash ∙ first)) mapped
            p in
        subst (IsDistinct id_of) same (others, map_rows-IsDistinct rows mapped ps)
  ]
]

pub due_rows-IsClaim :
    (at : Time) (limit : ℕ) (locked : ℕ → Bool) (db : Tables) {ds : List NotificationDelivery}
    → IsDistinct id_of db.deliveries
    → map_rows Deliveries.to_domain (Deliveries.due_rows at limit locked db) ≡ ok ds
    → IsClaim db.deliveries ds
unfolding Deliveries.due_rows
due_rows-IsClaim at limit locked db h mapped =
    let all = db.deliveries in
    let test = Deliveries.is_due at locked in
    let due = select test all in
    let sorted = order_by Deliveries.due_before due in
    let P = λ (d : NotificationDelivery). Matches d all in
    let found =
      All-take P limit sorted
        (All-order_by P Deliveries.due_before due (Matches-select test all h)) in
    record {
      distinct = map_rows-IsDistinct (take limit sorted) mapped (
          IsDistinct-take id_of limit sorted (
            IsDistinct-order_by id_of Deliveries.due_before due
              (IsDistinct-select id_of test all h)));
      counted =
          map_rows-All P (λ (d : NotificationDelivery). pos 0 ≤ℤ d.attempts) (take limit sorted)
            (λ r d fine _. (to_domain-ok r fine).2) mapped found;
      matched =
          map_rows-All P P (take limit sorted)
            (λ r d fine m.
              let (id, attempts, _) = to_domain-ok r fine in
              subst
                (λ (k : ℕ).
                  All (λ (s : NotificationDelivery). s.id ≡ k → s.attempts ≡ d.attempts) all)
                (sym id)
                (subst
                  (λ (a : ℤ). All (λ (s : NotificationDelivery). s.id ≡ r.id → s.attempts ≡ a) all)
                  (sym attempts) m))
            mapped found;
    }
