-- ===== src/RangeMap/Locate.antt =====
-- The binary search of `RangeMap::locate_end` (src/common/range_map.cpp).
use plin_cloud_edge_device_l.Common.{
  ℕ, zero, suc, ◌+◌, ◌-◌, ◌/◌, ◌≤◌, ◌<◌, ◌≡◌, refl, ◌∙◌, ◌⊎◌, inl, inr, true, false, List, [], ◌∷◌,
  some, arith, length, get_elem?, Bool-cases, ==_iff, ap, ◌==◌, get_elem?-of_lt, lt-of_get_elem?,
}
use plin_cloud_edge_device_l.Common.Int.{ℤ, negsuc}
use plin_cloud_edge_device_l.Double.{Double, is_nan, rank, double_lt, double_lt→lt, not_lt→le}
use native.Mathlib.Decide.{dec_lt, dec_le}
use plin_cloud_edge_device_l.RangeMap.Step.{step_empty, step_stop, step_left, step_right, step_hit}
use plin_cloud_edge_device_l.RangeMap.{EndInfo, locate_loop, locate, locate_end}

-- The key range of an end is an interval of numbers, and each end lies below the later ones.
pub record IsTopology (ends : List EndInfo) : Type 0 where
  pub numbers :
      (i : ℕ) (e : EndInfo)
      → get_elem? ends i ≡ some e
      → (is_nan e.key_lo ≡ false) × (is_nan e.key_hi ≡ false) × (rank e.key_lo ≤ rank e.key_hi)
  pub apart :
      (i j : ℕ) (a b : EndInfo)
      → get_elem? ends i ≡ some a
      → get_elem? ends j ≡ some b
      → i < j
      → rank a.key_hi < rank b.key_lo

-- `key_hi` is inclusive.
abbrev pub Contains : EndInfo → Double → Type 0
Contains e k = (rank e.key_lo ≤ rank k) × (rank k ≤ rank e.key_hi)

-- What a call for `k` between the indices `lo` and `hi` may return.
abbrev Found : List EndInfo → Double → ℕ → ℕ → ℤ → Type 0
Found ends k lo hi r =
    ((i : ℕ) × (e : EndInfo) × (get_elem? ends i ≡ some e) × Contains e k × (r ≡ e.id))
    ⊎ ((r ≡ negsuc 0)
        × ((i : ℕ) (e : EndInfo) → get_elem? ends i ≡ some e → lo ≤ i → i ≤ hi → Contains e k → ⊥))

module _ (ends : List EndInfo) (t : IsTopology ends) (k : Double) (number : is_nan k ≡ false) where
  lo_mono :
      (i j : ℕ) (a b : EndInfo)
      → get_elem? ends i ≡ some a
      → get_elem? ends j ≡ some b
      → i ≤ j
      → rank a.key_lo ≤ rank b.key_lo
  lo_mono i j a b p q le = elim (dec_lt i j) [
    | yes h ↦ omega (arith, t.apart i j a b p q h, t.numbers i a p)
    | no h ↦ ground arith
  ]

  hi_mono :
      (i j : ℕ) (a b : EndInfo)
      → get_elem? ends i ≡ some a
      → get_elem? ends j ≡ some b
      → i ≤ j
      → rank a.key_hi ≤ rank b.key_hi
  hi_mono i j a b p q le = elim (dec_lt i j) [
    | yes h ↦ omega (arith, t.apart i j a b p q h, t.numbers j b q)
    | no h ↦ ground arith
  ]

  -- What the half above or below `mid` leaves out does not contain `k`.
  widen_left :
      (lo hi mid : ℕ) (m : EndInfo) (r : ℤ)
      → get_elem? ends mid ≡ some m
      → double_lt k m.key_lo ≡ true
      → 0 < mid
      → Found ends k lo (mid - 1) r
      → Found ends k lo hi r
  widen_left lo hi mid m r at lt z (inl f) = inl f
  widen_left lo hi mid m r at lt z (inr (e, nowhere)) = inr (
    e,
    λ i e ai p q c. elim (dec_lt i mid) [
      | yes h ↦ nowhere i e ai p (omega arith) c
      | no h ↦ omega (arith, lo_mono mid i m e at ai (omega arith), double_lt→lt k m.key_lo lt)
    ],
  )

  widen_right :
      (lo hi mid : ℕ) (m : EndInfo) (r : ℤ)
      → get_elem? ends mid ≡ some m
      → double_lt m.key_hi k ≡ true
      → Found ends k (mid + 1) hi r
      → Found ends k lo hi r
  widen_right lo hi mid m r at lt (inl f) = inl f
  widen_right lo hi mid m r at lt (inr (e, nowhere)) = inr (
    e,
    λ i e ai p q c. elim (dec_lt mid i) [
      | yes h ↦ nowhere i e ai (omega arith) q c
      | no h ↦ omega (arith, hi_mono i mid e m ai at (omega arith), double_lt→lt m.key_hi k lt)
    ],
  )

  abbrev Finds : ℕ → ℕ → ℕ → Type 0
  Finds fuel lo hi = (r : ℤ) × (locate_loop fuel ends k lo hi ≡ some r) × Found ends k lo hi r

  -- One round of the loop, from what its two recursive calls give.
  visit :
      (fuel lo hi : ℕ) (m : EndInfo)
      → lo ≤ hi
      → get_elem? ends ((lo + hi) / 2) ≡ some m
      → (0 < (lo + hi) / 2 → Finds fuel lo ((lo + hi) / 2 - 1))
      → Finds fuel ((lo + hi) / 2 + 1) hi
      → Finds (suc fuel) lo hi
  visit fuel lo hi m h at left right = elim (Bool-cases (double_lt k m.key_lo)) [
    | inl lt ↦ elim (Bool-cases ((lo + hi) / 2 == 0)) [
      | inl z ↦ (
        negsuc 0,
        step_stop ends k fuel lo hi h m at lt ((==_iff _ _).0 z),
        inr (
          refl,
          λ i e ai _ _ c. omega (
            arith,
            lo_mono ((lo + hi) / 2) i m e at ai (omega (arith, (==_iff ((lo + hi) / 2) 0).0 z)),
            double_lt→lt k m.key_lo lt,
          ),
        ),
      )
      | inr z ↦
          let (r, e, f) = left (ground arith) in
          (
            r,
            step_left ends k fuel lo hi h m at lt z ∙ e,
            widen_left lo hi ((lo + hi) / 2) m r at lt (ground arith) f,
          )
    ]
    | inr ge ↦ elim (Bool-cases (double_lt m.key_hi k)) [
      | inl lt ↦
          let (r, e, f) = right in
          (
            r,
            step_right ends k fuel lo hi h m at ge lt ∙ e,
            widen_right lo hi ((lo + hi) / 2) m r at lt f,
          )
      | inr le ↦
          let (p, q, _) = t.numbers _ m at in
          (
            m.id,
            step_hit ends k fuel lo hi h m at ge le,
            inl (
              (lo + hi) / 2,
              m,
              at,
              (not_lt→le k m.key_lo number p ge, not_lt→le m.key_hi k q number le),
              refl,
            ),
          )
    ]
  ]

  -- The search between `lo` and `hi` returns within the fuel, and finds the end if it is there.
  locate_loop-Finds :
      (fuel lo hi : ℕ) → hi + 1 < lo + fuel → lo ≤ hi + 1 → hi < length ends → Finds fuel lo hi
  locate_loop-Finds zero lo hi m w b = absurd (omega arith)
  locate_loop-Finds (suc fuel) lo hi m w b = elim (dec_le lo hi) [
    | no h ↦ (
      negsuc 0,
      step_empty ends k fuel lo hi (omega arith),
      inr (refl, λ i e _ p q _. omega arith),
    )
    | yes h ↦
        let (e, at) = get_elem?-of_lt ends ((lo + hi) / 2) (omega arith) in
        visit fuel lo hi e h at
          (λ z.
            locate_loop-Finds fuel lo ((lo + hi) / 2 - 1) (omega arith) (omega arith) (omega arith))
          (locate_loop-Finds fuel ((lo + hi) / 2 + 1) hi (omega arith) (omega arith) b)
  ]

  Contains-unique :
      (i j : ℕ) (a b : EndInfo)
      → get_elem? ends i ≡ some a
      → get_elem? ends j ≡ some b
      → Contains a k
      → Contains b k
      → a ≡ b
  Contains-unique i j a b p q c d = elim (dec_lt i j) [
    | yes h ↦ absurd (omega (arith, t.apart i j a b p q h))
    | no h ↦ elim (dec_lt j i) [
      | yes h ↦ absurd (omega (arith, t.apart j i b a q p h))
      | no h' ↦ ground arith
    ]
  ]

locate-Found :
    (ends : List EndInfo)
    → IsTopology ends
    → (k : Double) → is_nan k ≡ false
    → (r : ℤ) × (locate ends k ≡ some r) × Found ends k 0 (length ends) r
unfolding locate
locate-Found [] t k number = (negsuc 0, refl, inr (refl, λ i e at. cc))
locate-Found (e' ∷ ends) t k number =
    let (r, p, f) =
      locate_loop-Finds (e' ∷ ends) t k number (suc (suc (length ends))) 0 (length ends)
        (omega arith) (omega arith) (omega arith) in
    (r, p, widen f)
  where
    widen :
        {r : ℤ}
        → Found (e' ∷ ends) k 0 (length ends) r
        → Found (e' ∷ ends) k 0 (suc (length ends)) r
    widen (inl f) = inl f
    widen (inr (p, none_in)) =
        inr (
          p,
          λ i e at lo hi c. none_in i e at lo (omega (arith, lt-of_get_elem? (e' ∷ ends) i at)) c,
        )

-- In a topology whose ranges are in order and apart, `locate_end` returns for a number the end whose
-- range contains it, both bounds included.
pub locate_end-Contains :
    (ends : List EndInfo) (k : Double) (i : ℕ) (e : EndInfo)
    → IsTopology ends
    → is_nan k ≡ false
    → get_elem? ends i ≡ some e
    → Contains e k
    → locate_end ends k ≡ e.id
unfolding locate_end
locate_end-Contains ends k i e t number ai d =
    let (r, p, f) = locate-Found ends t k number in
    elim f [
      | inl (j, m, at, c, q) ↦
          rw p (q ∙ ap (λ (x : EndInfo). x.id) (Contains-unique ends t k number j i m e at ai c d))
      | inr (q, out) ↦
          absurd (out i e ai (omega arith) (omega (arith, lt-of_get_elem? ends i ai)) d)
    ]

-- In such a topology `locate_end` returns -1 for a number that lies in no range, as in a gap between two
-- of them.
pub locate_end_gap :
    (ends : List EndInfo) (k : Double)
    → IsTopology ends
    → is_nan k ≡ false
    → ((i : ℕ) (e : EndInfo) → get_elem? ends i ≡ some e → ¬ Contains e k)
    → locate_end ends k ≡ negsuc 0
unfolding locate_end
locate_end_gap ends k t number out =
    let (r, p, f) = locate-Found ends t k number in
    elim f [ inl (j, m, at, c, q) ↦ absurd (out j m at c) | inr (q, _) ↦ rw p q ]
