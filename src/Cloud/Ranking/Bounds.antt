-- ===== src/Cloud/Ranking/Bounds.antt =====
-- The Ends and the numbers of hot positions that the ranking of src/cloud/cloud_server.cpp gives.
use plin_cloud_edge_device_l.Common.{
  All, ℕ, zero, suc, le→not_ltb, ◌+◌, ◌-◌, ◌*◌, ◌/◌, ◌≤◌, ◌<◌, ◌≡◌, refl, sym, ap, ◌∙◌, Bool, ◌⊎◌,
  inl, inr, true, ◌&&◌, ◌||◌, List, [], ◌∷◌, Option, none, some, ltb, arith, Bool-cases, length,
  map, get_elem?, set, take, replicate,
}
use plin_cloud_edge_device_l.Common.Int.{ℤ, pos, negsuc, pos_part, leb_ℤ, ◌≤ℤ◌, ◌==ℤ◌}
use mathlib.Core.Path.{subst}
use mathlib.Core.Option.{some-injective}
use plin_cloud_edge_device_l.Cloud.Ranking.{
  end_for_position, add_hit, count_hits, Ranked, by_count, best, tail_or_empty,
  build_hot_positions_by_end,
}

-- The row `n`, counted from 1, is one of the file and of End `e`: that of its million rows, where the tenth
-- End has all rows behind the ninth million.
abbrev pub IsRow : ℕ → ℕ → ℕ → Type 0
IsRow data_size e n =
    (1 ≤ e)
    × (e ≤ 10)
    × ((e - 1) * 1_000_000 < n)
    × (n ≤ data_size)
    × ((n ≤ e * 1_000_000) ⊎ (e ≡ 10))

-- A position is mapped to -1 exactly if it lies before the first row or behind the last, and else to the
-- End from 1 to 10 whose million rows have it, where the tenth End has all rows behind the ninth million.
pub end_for_position_lem :
    (key_pos : ℤ) (data_size : ℕ)
    → ((end_for_position key_pos data_size ≡ negsuc 0)
        × ((key_pos ≤ℤ pos 0) ⊎ (data_size < pos_part key_pos)))
      ⊎ ((n e : ℕ) × (key_pos ≡ pos n)
          × (end_for_position key_pos data_size ≡ pos e)
          × IsRow data_size e n)
unfolding end_for_position
end_for_position_lem (negsuc n) data_size = inl (ground arith, inl (ground arith))
end_for_position_lem (pos n) data_size =
    elim (Bool-cases (leb_ℤ (pos n) (pos 0) || ltb data_size n)) [
      | inl out ↦ inl (rw out refl, ground arith)
      | inr within ↦ elim (Bool-cases (ltb 10 ((n - 1) / 1_000_000 + 1))) [
        | inl over ↦ inr (
          n,
          10,
          refl,
          rw (within, over, le→not_ltb ((n - 1) / 1_000_000 + 1) 1 (omega arith)) refl,
          (omega arith, omega arith, ground arith, ground arith, inr refl),
        )
        | inr under ↦ inr (
          n,
          (n - 1) / 1_000_000 + 1,
          refl,
          rw (within, under, le→not_ltb ((n - 1) / 1_000_000 + 1) 1 (omega arith)) refl,
          (omega arith, ground arith, ground arith, ground arith, inl (ground arith)),
        )
      ]
    ]

-- The entries of a map are positions of the End `i`.
abbrev pub IsOf : ℕ → ℕ → List (ℤ × ℕ) → Type 0
IsOf data_size i = All (λ e. end_for_position e.0 data_size ≡ pos i)

-- The same for each map of a list, the first with index `i`.
abbrev AreOf : ℕ → ℕ → List (List (ℤ × ℕ)) → Type 0
AreOf data_size i [] = Unit {0}
AreOf data_size i (m ∷ maps) = IsOf data_size i m × AreOf data_size (suc i) maps

IsOf-add_hit :
    (data_size i : ℕ) (p : ℤ) (m : List (ℤ × ℕ))
    → end_for_position p data_size ≡ pos i
    → IsOf data_size i m
    → IsOf data_size i (add_hit p m)
unfolding add_hit
IsOf-add_hit data_size i p [] h own = (h, tt)
IsOf-add_hit data_size i p ((q, n) ∷ m) h (o, own) = elim (Bool-cases (q ==ℤ p)) [
  | inl t ↦ rw t (o, own)
  | inr t ↦ rw t (o, IsOf-add_hit data_size i p m h own)
]

AreOf-set :
    (data_size i j : ℕ) (maps : List (List (ℤ × ℕ))) (m : List (ℤ × ℕ))
    → IsOf data_size (i + j) m
    → AreOf data_size i maps
    → AreOf data_size i (set maps j m)
AreOf-set data_size i j [] m h own = tt
AreOf-set data_size i zero (x ∷ maps) m h (o, own) =
    (subst (λ n. IsOf data_size n m) (omega arith) h, own)
AreOf-set data_size i (suc j) (x ∷ maps) m h (o, own) =
    (o, AreOf-set data_size (suc i) j maps m (subst (λ n. IsOf data_size n m) (omega arith) h) own)

AreOf-set_first :
    (data_size j : ℕ) (maps : List (List (ℤ × ℕ))) (m : List (ℤ × ℕ))
    → IsOf data_size j m
    → AreOf data_size 0 maps
    → AreOf data_size 0 (set maps j m)
AreOf-set_first data_size j maps m h own =
    let h' : IsOf data_size (0 + j) m = subst (λ n. IsOf data_size n m) (omega arith) h in
    AreOf-set data_size 0 j maps m h' own

AreOf-get_elem? :
    (data_size i j : ℕ) (maps : List (List (ℤ × ℕ))) (m : List (ℤ × ℕ))
    → get_elem? maps j ≡ some m
    → AreOf data_size i maps
    → IsOf data_size (i + j) m
AreOf-get_elem? data_size i j [] m e own = cc
AreOf-get_elem? data_size i zero (x ∷ maps) m e (o, own) =
    subst (IsOf data_size (i + 0)) (some-injective x m e)
      (subst (λ n. IsOf data_size n x) (omega arith) o)
AreOf-get_elem? data_size i (suc j) (x ∷ maps) m e (o, own) =
    subst (λ n. IsOf data_size n m) (omega arith) (AreOf-get_elem? data_size (suc i) j maps m e own)

AreOf-replicate : (data_size i n : ℕ) → AreOf data_size i (replicate n [])
AreOf-replicate data_size i zero = tt
AreOf-replicate data_size i (suc n) = (tt, AreOf-replicate data_size (suc i) n)

hits_IsOf :
    (data_size j : ℕ) (o : Option (List (ℤ × ℕ)))
    → ((m : List (ℤ × ℕ)) → o ≡ some m → IsOf data_size j m)
    → IsOf data_size j (elim o [ none ↦ [] | some m ↦ m ])
hits_IsOf data_size j none h = tt
hits_IsOf data_size j (some m) h = h m refl

end_for_position_pos :
    (p : ℤ) (data_size : ℕ)
    → leb_ℤ (pos 1) (end_for_position p data_size) && leb_ℤ (end_for_position p data_size) (pos 10)
      ≡ true
    → end_for_position p data_size ≡ pos (pos_part (end_for_position p data_size))
end_for_position_pos p data_size h = elim (end_for_position_lem p data_size) [
  | inl (e, _) ↦ absurd (ground (arith, rw e at h))
  | inr (n, end, _, e, _) ↦ rw e refl
]

count_hits-AreOf :
    (data_size : ℕ) (positions : List ℤ) (counts : List (List (ℤ × ℕ)))
    → AreOf data_size 0 counts
    → AreOf data_size 0 (count_hits positions data_size counts)
unfolding count_hits
count_hits-AreOf data_size [] counts own = own
count_hits-AreOf data_size (p ∷ ps) counts own =
    let e = end_for_position p data_size in
    elim (Bool-cases (leb_ℤ (pos 1) e && leb_ℤ e (pos 10))) [
      | inr t ↦ rw t (count_hits-AreOf data_size ps counts own)
      | inl t ↦
          let hits = hits_IsOf data_size (pos_part e) (get_elem? counts (pos_part e)) (λ m at.
            subst (λ n. IsOf data_size n m) (omega arith)
              (AreOf-get_elem? data_size 0 (pos_part e) counts m at own)) in
          rw t (
            count_hits-AreOf data_size ps _ (
              AreOf-set_first data_size (pos_part e) counts _
                (IsOf-add_hit data_size (pos_part e) p _ (end_for_position_pos p data_size t) hits)
                own))
    ]

-- At most `max_per_end` positions, and none where that is negative, all of rows of the End `i`.
abbrev pub IsRanking : ℕ → ℤ → ℕ → List ℤ → Type 0
IsRanking data_size max_per_end i ps =
    (length ps ≤ pos_part max_per_end) × All (λ p. (n : ℕ) × (p ≡ pos n) × IsRow data_size i n) ps

end_for_position-IsRow :
    (data_size i : ℕ) (p : ℤ)
    → end_for_position p data_size ≡ pos i
    → (n : ℕ) × (p ≡ pos n) × IsRow data_size i n
end_for_position-IsRow data_size i p h = elim (end_for_position_lem p data_size) [
  | inl (e, _) ↦ cc (e, h)
  | inr (n, end, q, e, row) ↦
      let same : end ≡ i = ap pos_part (sym e ∙ h) in
      (n, q, subst (λ x. IsRow data_size x n) same row)
]

-- What holds of each entry of a list holds of each entry after the sort, as `std::sort` only permutes.
abbrev pub Keeps : ((Ranked → Ranked → Bool) → List Ranked → List Ranked) → Type 1
Keeps sort =
    (before : Ranked → Ranked → Bool) (P : Ranked → Type 0) (m : List Ranked)
    → All P m
    → All P (sort before m)

swapped :
    (data_size i : ℕ) (m : List (ℤ × ℕ))
    → IsOf data_size i m
    → All (λ (r : Ranked). end_for_position r.1 data_size ≡ pos i) (map (λ e. (e.1, e.0)) m)
swapped data_size i [] own = tt
swapped data_size i (e ∷ m) (o, own) = (o, swapped data_size i m own)

first_rows :
    (data_size i n : ℕ) (m : List Ranked)
    → All (λ (r : Ranked). end_for_position r.1 data_size ≡ pos i) m
    → let ps = map (λ (r : Ranked). r.1) (take n m) in
      (length ps ≤ n) × All (λ p. (n : ℕ) × (p ≡ pos n) × IsRow data_size i n) ps
first_rows data_size i zero m own = (omega arith, tt)
first_rows data_size i (suc n) [] own = (omega arith, tt)
first_rows data_size i (suc n) (r ∷ m) (o, own) =
    let (short, rest) = first_rows data_size i n m own in
    (omega (arith, short), (end_for_position-IsRow data_size i r.1 o, rest))

best-IsRanking :
    (sort : (Ranked → Ranked → Bool) → List Ranked → List Ranked) (data_size : ℕ) (max_per_end : ℤ)
    (i j : ℕ) (maps : List (List (ℤ × ℕ))) (ps : List ℤ)
    → Keeps sort
    → AreOf data_size i maps
    → get_elem? (best sort max_per_end maps) j ≡ some ps
    → IsRanking data_size max_per_end (i + j) ps
unfolding best
best-IsRanking sort data_size max_per_end i j [] ps keeps own at = cc
best-IsRanking sort data_size max_per_end i zero (m ∷ maps) ps keeps (o, own) at =
    let ranked = sort by_count (map (λ e. (e.1, e.0)) m) in
    let ps' = map (λ (r : Ranked). r.1) (take (pos_part max_per_end) ranked) in
    let here : IsRanking data_size max_per_end i ps' =
      first_rows data_size i (pos_part max_per_end) ranked
        (keeps by_count _ _ (swapped data_size i m o)) in
    subst (IsRanking data_size max_per_end (i + 0)) (some-injective _ ps at)
      (subst (λ n. IsRanking data_size max_per_end n ps') {x = i} {y = i + 0} (omega arith) here)
best-IsRanking sort data_size max_per_end i (suc j) (m ∷ maps) ps keeps (o, own) at =
    subst (λ n. IsRanking data_size max_per_end n ps) (omega arith)
      (best-IsRanking sort data_size max_per_end (suc i) j maps ps keeps own at)

AreOf-tail_or_empty :
    (data_size : ℕ) (maps : List (List (ℤ × ℕ)))
    → AreOf data_size 0 maps
    → AreOf data_size 1 (tail_or_empty maps)
unfolding tail_or_empty
AreOf-tail_or_empty data_size [] own = tt
AreOf-tail_or_empty data_size (m ∷ maps) (o, own) = own

-- The hot positions listed under the id of an End are those of rows of the file that the End has, and at
-- most `max_per_end` of them, none where that is negative: for every workload, if the sort leaves no entry
-- in a list that was not there.
pub build_hot_positions_by_end-IsRanking :
    (sort : (Ranked → Ranked → Bool) → List Ranked → List Ranked) (positions : List ℤ)
    (data_size : ℕ) (max_per_end : ℤ) (i : ℕ) (ps : List ℤ)
    → Keeps sort
    → get_elem? (build_hot_positions_by_end sort positions data_size max_per_end) i ≡ some ps
    → IsRanking data_size max_per_end i ps
unfolding build_hot_positions_by_end
build_hot_positions_by_end-IsRanking sort positions data_size max_per_end zero ps keeps at =
    subst (IsRanking data_size max_per_end 0) (some-injective [] ps at) (omega arith, tt)
build_hot_positions_by_end-IsRanking sort positions data_size max_per_end (suc i) ps keeps at =
    subst (λ n. IsRanking data_size max_per_end n ps) (omega arith)
      (best-IsRanking sort data_size max_per_end 1 i _ ps keeps
        (AreOf-tail_or_empty data_size _
          (count_hits-AreOf data_size positions (replicate 11 []) (AreOf-replicate data_size 0 11)))
        at)
