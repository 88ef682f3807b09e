-- ===== src/Booking/Assign/Best.antt =====
-- backend/src/bookings/bookings.service.ts: `autoAssignHotelStaffInternal`, what the choice guarantees.
use mathlib.Core.List.{Mem, mem-cons_self}
use mathlib.Core.List.Perm
use cg_traveleke_service.Base.{
  ℕ, ◌+◌, ◌*◌, leb, if◌then◌else◌, Bool, true, false, List, [], ◌∷◌, ◌≡◌, some, arith, All, sort,
  Ascending, sort-Ascending, ◌≤◌, All-of-sort, All-mono, subst, sort-perm,
}
use cg_traveleke_service.Booking.Assign.{
  StaffRole, manager, other, manager_bonus, Candidate, Score, head_of, lower, vip_score,
  standard_score, score_of, best_candidate,
}

-- The score of `a` is at least that of `b`.
abbrev AtLeast : Score → Score → Type 0
AtLeast a b = b.gain + a.loss ≤ a.gain + b.loss

lower-asymm : (s : Candidate → Score) (a b : Candidate) → lower s a b ≡ true → lower s b a ≡ false
lower-asymm s a b h = ground arith

lower_trans :
    (s : Candidate → Score) (a b c : Candidate)
    → lower s a b ≡ false
    → lower s b c ≡ false
    → lower s a c ≡ false
lower_trans s a b c h k = ground arith

AtLeast-of_lower :
    (s : Candidate → Score) (a b : Candidate) → lower s a b ≡ false → AtLeast (s a) (s b)
AtLeast-of_lower s a b h = ground arith

head-AtLeast :
    (s : Candidate → Score) (c : Candidate) (cs : List Candidate)
    → Ascending (lower s) (c ∷ cs)
    → All (λ d. AtLeast (s c) (s d)) (c ∷ cs)
head-AtLeast s c cs h = (
  omega arith,
  All-mono (λ d. lower s c d ≡ false) (λ d. AtLeast (s c) (s d)) (AtLeast-of_lower s c) cs h.0,
)

head_of-AtLeast :
    (s : Candidate → Score) (best : Candidate) (l : List Candidate)
    → head_of l ≡ some best
    → Ascending (lower s) l
    → All (λ d. AtLeast (s best) (s d)) l × Mem best l
head_of-AtLeast s best [] e h = cc
head_of-AtLeast s best (c ∷ cs) e h =
    let same : c ≡ best = ground arith in
    (
      subst (λ b. All (λ d. AtLeast (s b) (s d)) (c ∷ cs)) same (head-AtLeast s c cs h),
      subst (λ b. Mem b (c ∷ cs)) same mem-cons_self,
    )

abbrev pub bonus : StaffRole → ℕ
bonus manager = 30
bonus other = 0

-- At most two years of experience.
abbrev pub newcomer : ℕ → ℕ
newcomer tenths = if leb tenths 20 then 30 else 0

-- `a` is at least as good as `b`, each load counted against its own side. For a VIP room: 20 for a level of
-- skill, 10 for a year, 5 for a completed booking, 30 for a manager, less 15 for a booking in hand. For
-- another room: 20 for each level below 5, 30 for a newcomer, less 25 for a booking in hand.
abbrev pub Suits : Bool → Candidate → Candidate → Type 0
Suits true a b =
    b.max_skill_level * 20
      + b.max_years_exp
      + b.completed_count * 5
      + bonus b.staff_role
      + a.active_load * 15
    ≤ a.max_skill_level * 20
      + a.max_years_exp
      + a.completed_count * 5
      + bonus a.staff_role
      + b.active_load * 15
Suits false a b =
    newcomer b.max_years_exp + a.max_skill_level * 20 + a.active_load * 25
    ≤ newcomer a.max_years_exp + b.max_skill_level * 20 + b.active_load * 25

bonus-same : (r : StaffRole) → manager_bonus r ≡ bonus r
bonus-same manager = omega arith
bonus-same other = omega arith

Suits-of_score :
    (vip : Bool) (a b : Candidate) → AtLeast (score_of vip a) (score_of vip b) → Suits vip a b
unfolding vip_score standard_score
Suits-of_score true a b h = omega (arith, h, bonus-same a.staff_role, bonus-same b.staff_role)
Suits-of_score false a b h = omega (arith, h)

-- The chosen member of staff is one of the candidates, and no candidate suits better: for a VIP room by 20
-- points for a level of skill, 10 for a year of experience, 5 for a completed booking and 30 for a manager,
-- less 15 for a booking in hand; for another room by 20 for each level below 5 and 30 for at most two
-- years, less 25 for a booking in hand.
pub best_candidate-Suits :
    (vip : Bool) (candidates : List Candidate) (best : Candidate)
    → best_candidate vip candidates ≡ some best
    → All (λ d. Suits vip best d) candidates × Mem best candidates
unfolding best_candidate
best_candidate-Suits vip candidates best e =
    let s = score_of vip in
    let sorted = sort-Ascending (lower s) (lower-asymm s) (lower_trans s) candidates in
    let (top, member) = head_of-AtLeast s best (sort (lower s) candidates) e sorted in
    (
      All-mono (λ d. AtLeast (s best) (s d)) (λ d. Suits vip best d) (Suits-of_score vip best)
          candidates (All-of-sort (lower s) (λ d. AtLeast (s best) (s d)) candidates top),
      (Perm.mem_iff (sort-perm (lower s) candidates)).0 member,
    )
