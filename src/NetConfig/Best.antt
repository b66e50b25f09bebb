-- ===== src/NetConfig/Best.antt =====
-- The gateway that `apply_endpoint_bypass_route` chooses.
use secure_tunnel_cpp.Prelude.{
  ℕ, ◌≤◌, ◌≡◌, refl, ◌⊎◌, inl, inr, true, not, Option, none, some, List, [], ◌∷◌, arith,
  if◌then◌else◌, Bool-cases, All,
}
use secure_tunnel_cpp.NetConfig.{Row}
use secure_tunnel_cpp.NetConfig.Routes.{eligible, better, best_row}

-- There is a row, and its metric is at most this.
abbrev pub AtMost : Option Row → ℕ → Type 0
AtMost none m = ⊥
AtMost (some b) m = b.metric ≤ m

-- The row stands in the table and is eligible.
abbrev pub IsChosen : ℕ → Row → List Row → Type 0
IsChosen luid b [] = ⊥
IsChosen luid b (r ∷ rs) = ((r ≡ b) × (eligible luid r ≡ true)) ⊎ IsChosen luid b rs

AtMost-le : (o : Option Row) (m n : ℕ) → AtMost o m → m ≤ n → AtMost o n
AtMost-le none m n h l = h
AtMost-le (some b) m n h l = omega arith

better_le : (best : Option Row) (row : Row) → (better best row).metric ≤ row.metric
better_le none row = omega arith
better_le (some b) row = ground arith

better_le_old : (b row : Row) → (better (some b) row).metric ≤ b.metric
better_le_old b row = ground arith

better_or :
    (best : Option Row) (row : Row) → (better best row ≡ row) ⊎ (best ≡ some (better best row))
better_or none row = inl refl
better_or (some b) row = ground arith

best_row-acc :
    (luid : ℕ) (rows : List Row) (a : Row) → AtMost (best_row luid rows (some a)) a.metric
unfolding best_row
best_row-acc luid [] a = omega arith
best_row-acc luid (r ∷ rs) a = elim (Bool-cases (eligible luid r)) [
  | inl e ↦ rw e (
      AtMost-le (best_row luid rs (some (better (some a) r))) _ _
        (best_row-acc luid rs (better (some a) r)) (better_le_old a r))
  | inr e ↦ rw e (best_row-acc luid rs a)
]

best_row-All :
    (luid : ℕ) (rows : List Row) (acc : Option Row)
    → All (λ r. eligible luid r ≡ true → AtMost (best_row luid rows acc) r.metric) rows
unfolding best_row
best_row-All luid [] acc = tt
best_row-All luid (r ∷ rs) acc = (
  λ e. rw e (
      AtMost-le (best_row luid rs (some (better acc r))) _ _ (best_row-acc luid rs (better acc r))
        (better_le acc r)),
  best_row-All luid rs (if not (eligible luid r) then acc else some (better acc r)),
)

best_row-from :
    (luid : ℕ) (rows : List Row) (acc : Option Row) (b : Row)
    → best_row luid rows acc ≡ some b
    → (acc ≡ some b) ⊎ IsChosen luid b rows
unfolding best_row
best_row-from luid [] acc b h = inl h
best_row-from luid (r ∷ rs) acc b h = elim (Bool-cases (eligible luid r)) [
  | inl e ↦
      ground (arith, better_or acc r, best_row-from luid rs (some (better acc r)) b (rw e at h))
  | inr e ↦ ground (arith, best_row-from luid rs acc b (rw e at h))
]

-- The bypass route takes the best gateway of the table: a row is chosen exactly where one is
-- eligible (a default route of another interface, with a next hop), the chosen row is eligible and
-- stands in the table, and no eligible row has a lower metric.
pub best_row-IsBest :
    (luid : ℕ) (table : List Row)
    → All (λ r. eligible luid r ≡ true → AtMost (best_row luid table none) r.metric) table
      × ((b : Row) → best_row luid table none ≡ some b → IsChosen luid b table)
best_row-IsBest luid table =
    (best_row-All luid table none, λ b h. chosen b (best_row-from luid table none b h))
  where
    chosen : (b : Row) → (none ≡ some b) ⊎ IsChosen luid b table → IsChosen luid b table
    chosen b (inl e) = absurd (ground arith)
    chosen b (inr c) = c
