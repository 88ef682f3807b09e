-- ===== src/Requests/Entitled.antt =====
-- backend/src/services/services.service.ts: a booking has each of its services in one snapshot.
use cg_traveleke_service.Base.{
  ℕ, ◌+◌, ◌≤◌, ◌==◌, true, ◌&&◌, Option, List, [], ◌∷◌, ◌≡◌, refl, sym, ap, subst, ◌∙◌, arith,
  if◌then◌else◌, count, count-append, count-of_none, count_of_first, select, All, All-mono,
  Bool-cases, Option-cases, inl, inr, ==_refl,
}
use cg_traveleke_service.Catalogue.Offers.{RoomService}
use cg_traveleke_service.Requests.Model.{ServicesDb, Services}
use cg_traveleke_service.Requests.Snapshots.{
  is_snapshot, grants, new_snapshot, add_snapshot, add_snapshots, create_booking_snapshots,
}

same_keys :
    (booking service b t : ℕ)
    → (booking == b && service == t) ≡ true
    → (booking ≡ b) × (service ≡ t)
same_keys booking service b t h = (ground arith, ground arith)

-- How many snapshots of a service a booking has.
abbrev pub snapshots_of : ℕ → ℕ → ServicesDb → ℕ
snapshots_of b s db = count (is_snapshot b s) db.snapshots

module _ (v : Services) (booking : ℕ) where
  -- A round adds a snapshot of its service if there is none, and nothing else.
  added :
      (s : RoomService) (db : ServicesDb) (b t : ℕ)
      → snapshots_of b t (add_snapshot v booking s db)
        ≡ snapshots_of b t db
          + (if is_snapshot b t (new_snapshot v booking s db) && snapshots_of booking s.id db == 0
              then 1
              else 0)
  unfolding add_snapshot
  added s db b t =
      elim (Option-cases (v.snapshot_repo.find_one (is_snapshot booking s.id) db.snapshots)) [
        | inr (x, e) ↦
            let some_row =
              count_of_first (is_snapshot booking s.id) db.snapshots x
                (sym (v.snapshot_repo.find_one_lem _ _) ∙ e) in
            rw (add_snapshot, e) (ground (arith, some_row))
        | inl e ↦
            let no_row =
              count-of_none (is_snapshot booking s.id) db.snapshots
                (sym (v.snapshot_repo.find_one_lem _ _) ∙ e) in
            rw
              (
                add_snapshot,
                e,
                v.snapshot_repo.insert_lem,
                count-append (is_snapshot b t) db.snapshots (new_snapshot v booking s db ∷ []),
              )
              (ground (arith, no_row))
      ]

  one_offers :
      (s : RoomService) (db : ServicesDb) → (add_snapshot v booking s db).offers ≡ db.offers
  unfolding add_snapshot
  one_offers s db = ground arith

  grown :
      (s : RoomService) (db : ServicesDb) (b t : ℕ)
      → snapshots_of b t db ≤ snapshots_of b t (add_snapshot v booking s db)
  grown s db b t = ground (arith, added s db b t)

  at_least_one :
      (s : RoomService) (db : ServicesDb)
      → 1 ≤ snapshots_of booking s.id (add_snapshot v booking s db)
  unfolding new_snapshot
  at_least_one s db = ground (arith, added s db booking s.id, ==_refl booking, ==_refl s.id)

  at_most_one :
      (s : RoomService) (db : ServicesDb) (b t : ℕ)
      → snapshots_of b t db ≤ 1
      → snapshots_of b t (add_snapshot v booking s db) ≤ 1
  unfolding new_snapshot
  at_most_one s db b t h = elim (Bool-cases (is_snapshot b t (new_snapshot v booking s db))) [
    | inr m ↦ ground (arith, added s db b t, m)
    | inl m ↦
        let (same_booking, same_service) = same_keys booking s.id b t m in
        let same : snapshots_of booking s.id db ≡ snapshots_of b t db =
          ap (λ x. snapshots_of x s.id db) same_booking
          ∙ ap (λ x. snapshots_of b x db) same_service in
        ground (arith, added s db b t, same)
  ]

  all_at_most_one :
      (ss : List RoomService) (db : ServicesDb)
      → ((b t : ℕ) → snapshots_of b t db ≤ 1)
      → (b t : ℕ) → snapshots_of b t (add_snapshots v booking ss db) ≤ 1
  unfolding add_snapshots
  all_at_most_one [] db h = h
  all_at_most_one (s ∷ ss) db h =
      all_at_most_one ss (add_snapshot v booking s db) (λ b t. at_most_one s db b t (h b t))

  all_grown :
      (ss : List RoomService) (db : ServicesDb) (b t : ℕ)
      → snapshots_of b t db ≤ snapshots_of b t (add_snapshots v booking ss db)
  unfolding add_snapshots
  all_grown [] db b t = omega arith
  all_grown (s ∷ ss) db b t =
      omega (arith, grown s db b t, all_grown ss (add_snapshot v booking s db) b t)

  each_at_least_one :
      (ss : List RoomService) (db : ServicesDb)
      → All (λ s. 1 ≤ snapshots_of booking s.id (add_snapshots v booking ss db)) ss
  unfolding add_snapshots
  each_at_least_one [] db = tt
  each_at_least_one (s ∷ ss) db =
      let db' = add_snapshot v booking s db in
      (omega (arith, at_least_one s db, all_grown ss db' booking s.id), each_at_least_one ss db')

  -- Where each service has its snapshot, nothing is added.
  complete_same :
      (ss : List RoomService) (db : ServicesDb)
      → All (λ s. 1 ≤ snapshots_of booking s.id db) ss
      → add_snapshots v booking ss db ≡ db
  unfolding add_snapshots add_snapshot
  complete_same [] db h = refl
  complete_same (s ∷ ss) db h =
      elim (Option-cases (v.snapshot_repo.find_one (is_snapshot booking s.id) db.snapshots)) [
        | inl e ↦
            let no_row =
              count-of_none (is_snapshot booking s.id) db.snapshots
                (sym (v.snapshot_repo.find_one_lem _ _) ∙ e) in
            absurd (omega (arith, no_row, h.0))
        | inr (x, e) ↦ rw (add_snapshots, add_snapshot, e) (complete_same ss db h.1)
      ]

  offers_same :
      (ss : List RoomService) (db : ServicesDb) → (add_snapshots v booking ss db).offers ≡ db.offers
  unfolding add_snapshots
  offers_same [] db = refl
  offers_same (s ∷ ss) db = offers_same ss (add_snapshot v booking s db) ∙ one_offers s db

  -- If no booking has two snapshots of a service: after `createBookingSnapshots` none has; each active
  -- service of the kinds and of the room type and hotel that are asked for has exactly one for the
  -- booking; and a second call with the same arguments changes nothing.
  pub create_booking_snapshots_complete :
      (room_type hotel : Option ℕ) (db : ServicesDb)
      → ((b t : ℕ) → snapshots_of b t db ≤ 1)
      → ((b t : ℕ) → snapshots_of b t (create_booking_snapshots v booking room_type hotel db) ≤ 1)
        × All
            (λ s.
              snapshots_of booking s.id (create_booking_snapshots v booking room_type hotel db) ≡ 1)
            (select (grants room_type hotel) db.offers)
        × (create_booking_snapshots v booking room_type hotel
              (create_booking_snapshots v booking room_type hotel db)
            ≡ create_booking_snapshots v booking room_type hotel db)
  unfolding create_booking_snapshots
  create_booking_snapshots_complete room_type hotel db h =
      let ss = v.offer_repo.find (grants room_type hotel) db.offers in
      let after = add_snapshots v booking ss db in
      let few = all_at_most_one ss db h in
      let found = v.offer_repo.find_lem (grants room_type hotel) db.offers in
      let each = each_at_least_one ss db in
      let least : RoomService → Type 0 = λ s. 1 ≤ snapshots_of booking s.id after in
      let exact : RoomService → Type 0 = λ s. snapshots_of booking s.id after ≡ 1 in
      (
        few,
        All-mono least exact (λ s one. omega (arith, one, few booking s.id)) _
            (subst (All least) found each),
        ap (λ o. add_snapshots v booking (v.offer_repo.find (grants room_type hotel) o) after)
              (offers_same ss db)
            ∙ complete_same ss after each,
      )
