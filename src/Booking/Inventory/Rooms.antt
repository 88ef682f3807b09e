-- ===== src/Booking/Inventory/Rooms.antt =====
-- backend/src/bookings/bookings.service.ts: what the updates of `rooms` do to the stock.
use cg_traveleke_service.Base.{
  ℕ, ◌+◌, ◌*◌, ◌==◌, Bool, true, false, List, [], ◌∷◌, ◌≡◌, refl, if◌then◌else◌, count, sum_by,
  map_where, All, All-mono, arith, count-map_where, Bool-cases, inl, inr, suc, ◌∙◌,
}
use cg_traveleke_service.Booking.Model.{Room, BookingRoom, Orm}
use cg_traveleke_service.Booking.Create.{has_stock, take_stock}
use cg_traveleke_service.Booking.Status.{is_room, add_stock, refund_all}
use cg_traveleke_service.Booking.Inventory.{stock_at, available}

abbrev copies : Bool → ℕ → ℕ
copies b n = if b then n else 0

take_one :
    (r i n : ℕ) (x : Room)
    → stock_at r (if has_stock i n x then take_stock n x else x)
        + copies (i == r) (copies (has_stock i n x) n)
      ≡ stock_at r x
take_one r i n x = elim (Bool-cases (has_stock i n x)) [
  | inl e ↦ rw e (ground (arith, e))
  | inr e ↦ rw e (ground arith)
]

add_one_room :
    (r n : ℕ) (br : BookingRoom) (x : Room)
    → stock_at r (if is_room br x then add_stock n x else x)
      ≡ stock_at r x + copies (br.room_id == r) (copies (is_room br x) n)
add_one_room r n br x = elim (Bool-cases (is_room br x)) [
  | inl e ↦ rw e (ground (arith, e))
  | inr e ↦ rw e (ground arith)
]

-- One more row that passes, one more copy.
copies-count :
    (c b : Bool) (n k : ℕ)
    → copies c (n * (if b then suc k else k)) ≡ copies c (n * k) + copies c (copies b n)
copies-count true true n k = omega arith
copies-count true false n k = omega arith
copies-count false _ n k = omega arith

-- The conditional decrement takes `n` from the room, once for each row that it affects.
pub available-take :
    (r i n : ℕ) (rooms : List Room)
    → available r (map_where (has_stock i n) (take_stock n) rooms)
        + (if i == r then n * count (has_stock i n) rooms else 0)
      ≡ available r rooms
available-take r i n [] = ground arith
available-take r i n (x ∷ xs) = omega (
  arith,
  take_one r i n x,
  copies-count (i == r) (has_stock i n x) n (count (has_stock i n) xs),
  available-take r i n xs,
)

pub available-add :
    (r n : ℕ) (br : BookingRoom) (rooms : List Room)
    → available r (map_where (is_room br) (add_stock n) rooms)
      ≡ available r rooms + (if br.room_id == r then n * count (is_room br) rooms else 0)
available-add r n br [] = ground arith
available-add r n br (x ∷ xs) = omega (
  arith,
  add_one_room r n br x,
  copies-count (br.room_id == r) (is_room br x) n (count (is_room br) xs),
  available-add r n br xs,
)

-- What the rows of a booking give back to the room `r`.
abbrev pub quantity_at : ℕ → BookingRoom → ℕ
quantity_at r br = if br.room_id == r then br.quantity else 0

-- The loop gives each row's quantity back once, if each row refers to one room.
pub available-refund_all :
    (orm : Orm) (r : ℕ) (brs : List BookingRoom) (rooms : List Room)
    → All (λ br. count (is_room br) rooms ≡ 1) brs
    → available r (refund_all orm brs rooms) ≡ available r rooms + sum_by (quantity_at r) brs
unfolding refund_all
available-refund_all orm r [] rooms h = omega arith
available-refund_all orm r (br ∷ brs) rooms h =
    let rooms' = map_where (is_room br) (add_stock br.quantity) rooms in
    let keep : All (λ b. count (is_room b) rooms' ≡ 1) brs =
      All-mono (λ b. count (is_room b) rooms ≡ 1) (λ b. count (is_room b) rooms' ≡ 1)
        (λ b e.
          count-map_where (is_room b) (is_room br) (add_stock br.quantity) rooms (λ x _. refl) ∙ e)
        brs h.1 in
    rw (orm.room_repo.update_lem (is_room br) (add_stock br.quantity) rooms) (
      ground
        (arith, available-refund_all orm r brs rooms' keep, available-add r br.quantity br rooms))

pub count-refund_all :
    (orm : Orm) (q : Room → Bool) (brs : List BookingRoom) (rooms : List Room)
    → ((n : ℕ) (x : Room) → q (add_stock n x) ≡ q x)
    → count q (refund_all orm brs rooms) ≡ count q rooms
unfolding refund_all
count-refund_all orm q [] rooms h = refl
count-refund_all orm q (br ∷ brs) rooms h =
    rw (orm.room_repo.update_lem (is_room br) (add_stock br.quantity) rooms) (
      count-refund_all orm q brs _ h
      ∙ count-map_where q (is_room br) (add_stock br.quantity) rooms (λ x _. h br.quantity x))
