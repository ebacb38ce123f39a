-- ===== src/Outbox/Relay/Claims.antt =====
-- Which rows `ClaimUnpublished` of internal/outbox/adapter/out/postgres/repository.go claims, where
-- no other transaction holds a row and the limit is not reached.
use go_pet_project.Base.{
  subst, ℕ, zero, suc, Bool, true, false, List, [], ◌∷◌, ◌≡◌, ◌≢◌, ◌≤◌, refl, ◌∙◌, arith, All,
  select, take, length, count_rows, inl, inr, Bool-cases,
}
use go_pet_project.Base.Int.{ℤ, pos_part}
use go_pet_project.Base.Sort.{insert_row, order_by}
use go_pet_project.Base.Distinct.{
  IsDistinct, IsDistinct-select, IsDistinct-order_by, All-select, All-order_by,
}
use go_pet_project.World.{Tables}
use go_pet_project.Outbox.Event.{Event}
use go_pet_project.Outbox.Repository.{older, is_claimable, unpublished_rows, is_unpublished}
use go_pet_project.Outbox.Relay.Delivers.{IsSendable, id_of, is_in, AreLeft}

counted_none :
    (id : ℕ) (es : List Event)
    → All (λ (e : Event). e.id ≢ id) es
    → count_rows (is_unpublished id) es ≡ 0
counted_none id [] n = refl
counted_none id (e ∷ es) (n, ns) = ground (arith, counted_none id es ns)

counted_below :
    (e : Event) (es rs : List Event)
    → All (λ (r : Event). r.id ≢ e.id) rs
    → All (λ (r : Event). count_rows (is_unpublished r.id) es ≡ 1) rs
    → All (λ (r : Event). count_rows (is_unpublished r.id) (e ∷ es) ≡ 1) rs
counted_below e es [] n h = tt
counted_below e es (r ∷ rs) (n, ns) (h, hs) = (ground arith, counted_below e es rs ns hs)

counted-select :
    (locked : ℕ → Bool) (es : List Event)
    → IsDistinct id_of es
    → All (λ (r : Event). count_rows (is_unpublished r.id) es ≡ 1) (select (is_claimable locked) es)
counted-select locked [] d = tt
counted-select locked (e ∷ es) (d, ds) =
    let rest =
      counted_below e es (select (is_claimable locked) es)
        (All-select (λ (r : Event). r.id ≢ e.id) (is_claimable locked) es d)
        (counted-select locked es ds) in
    elim (Bool-cases (is_claimable locked e)) [
      | inl claimed ↦ rw claimed (ground (arith, counted_none e.id es d), rest)
      | inr other ↦ rw other rest
    ]

AreLeft-map :
    (rs rs' es : List Event)
    → ((id : ℕ) → is_in id rs ≡ true → is_in id rs' ≡ true)
    → AreLeft rs es
    → AreLeft rs' es
AreLeft-map rs rs' [] f h = tt
AreLeft-map rs rs' (e ∷ es) f (h, hs) = (λ open_. f e.id (h open_), AreLeft-map rs rs' es f hs)

AreLeft-select :
    (locked : ℕ → Bool) (es : List Event)
    → ((id : ℕ) → locked id ≡ false)
    → AreLeft (select (is_claimable locked) es) es
AreLeft-select locked [] free = tt
AreLeft-select locked (e ∷ es) free =
    let rest = AreLeft-select locked es free in
    let below =
      AreLeft-map (select (is_claimable locked) es) (e ∷ select (is_claimable locked) es) es
        (λ id h. ground arith) rest in
    elim (Bool-cases (is_claimable locked e)) [
      | inl claimed ↦
          let rows : e ∷ select (is_claimable locked) es ≡ select (is_claimable locked) (e ∷ es) =
            ground arith in
          subst (λ rs. AreLeft rs (e ∷ es)) rows (λ _. ground arith, below)
      | inr other ↦
          let rows : select (is_claimable locked) es ≡ select (is_claimable locked) (e ∷ es) =
            ground arith in
          subst (λ rs. AreLeft rs (e ∷ es)) rows (λ still. absurd (ground (arith, free e.id)), rest)
    ]

is_in-insert_row :
    (id : ℕ) (e : Event) (rs : List Event) → is_in id (insert_row older e rs) ≡ is_in id (e ∷ rs)
unfolding insert_row
is_in-insert_row id e [] = refl
is_in-insert_row id e (r ∷ rs) = elim (Bool-cases (older e r)) [
  | inl first ↦ rw first refl
  | inr after ↦ rw after (ground (arith, is_in-insert_row id e rs))
]

is_in-order_by : (id : ℕ) (rs : List Event) → is_in id (order_by older rs) ≡ is_in id rs
unfolding order_by
is_in-order_by id [] = refl
is_in-order_by id (r ∷ rs) =
    ground (arith, is_in-insert_row id r (order_by older rs), is_in-order_by id rs)

length-insert_row : (e : Event) (rs : List Event) → length (insert_row older e rs) ≡ suc (length rs)
unfolding insert_row
length-insert_row e [] = refl
length-insert_row e (r ∷ rs) = elim (Bool-cases (older e r)) [
  | inl first ↦ rw first refl
  | inr after ↦ rw after (ground (arith, length-insert_row e rs))
]

length-order_by : (rs : List Event) → length (order_by older rs) ≡ length rs
unfolding order_by
length-order_by [] = refl
length-order_by (r ∷ rs) =
    length-insert_row r (order_by older rs) ∙ ground (arith, length-order_by rs)

length-select : (p : Event → Bool) (es : List Event) → length (select p es) ≤ length es
length-select p [] = ground arith
length-select p (e ∷ es) = ground (arith, length-select p es)

take_all : (n : ℕ) (rs : List Event) → length rs ≤ n → take n rs ≡ rs
take_all zero [] h = refl
take_all zero (r ∷ rs) h = absurd (ground arith)
take_all (suc n) [] h = refl
take_all (suc n) (r ∷ rs) h = ground (arith, take_all n rs)

-- The claimed rows are distinct and sendable, have one unpublished row each, and are all that is
-- left to publish.
pub record IsClaim (es rs : List Event) : Type 0 where
  pub distinct : IsDistinct id_of rs
  pub sendable : All IsSendable rs
  pub counted : All (λ (r : Event). count_rows (is_unpublished r.id) es ≡ 1) rs
  pub left : AreLeft rs es

pub unpublished_rows-IsClaim :
    (limit : ℤ) (locked : ℕ → Bool) (db : Tables)
    → ((id : ℕ) → locked id ≡ false)
    → IsDistinct id_of db.outbox_events
    → All IsSendable db.outbox_events
    → length db.outbox_events ≤ pos_part limit
    → IsClaim db.outbox_events (unpublished_rows limit locked db)
unfolding unpublished_rows
unpublished_rows-IsClaim limit locked db free d s fits =
    let es = db.outbox_events in
    let rows = select (is_claimable locked) es in
    let sorted = order_by older rows in
    let whole : take (pos_part limit) sorted ≡ sorted =
      take_all (pos_part limit) sorted
        (ground (arith, length-order_by rows, length-select (is_claimable locked) es)) in
    let C = λ (r : Event). count_rows (is_unpublished r.id) es ≡ 1 in
    rw whole (record {
      distinct =
          IsDistinct-order_by id_of older rows (IsDistinct-select id_of (is_claimable locked) es d);
      sendable =
          All-order_by IsSendable older rows (All-select IsSendable (is_claimable locked) es s);
      counted = All-order_by C older rows (counted-select locked es d);
      left =
          AreLeft-map rows sorted es (λ id h. is_in-order_by id rows ∙ h)
            (AreLeft-select locked es free);
    })
