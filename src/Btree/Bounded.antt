-- ===== src/Btree/Bounded.antt =====
-- The children of an inner page of src/core/index/b_plus.h between the keys that part them, and the one
-- that a key leads to.
use plin_cloud_edge_device_l.Common.{
  ℕ, suc, ◌≤◌, ◌<◌, ◌≡◌, refl, ap, false, List, [], ◌∷◌, ◌++◌, inl, inr, arith, length, Bool-cases,
  append-nil,
}
use plin_cloud_edge_device_l.Double.{Double, is_nan, rank, double_lt, not_lt→le, double_lt→lt}
use plin_cloud_edge_device_l.Btree.{Records, all_data, child_rank, first_above, first_key}
use plin_cloud_edge_device_l.Btree.Lookup.{Rising, Rising_le}
use plin_cloud_edge_device_l.Btree.Append.{Rising-append}

-- Each child lies between two bounds: the first from `lo`, the last up to `hi`, and the others from the key
-- before them and up to the key behind them.
abbrev pub Bounded : {A : Type 0} → (ℕ → ℕ → A → Type 0) → ℕ → ℕ → List (Double × A) → Type 0
Bounded P lo hi [] = ⊥
Bounded P lo hi ((s, c) ∷ []) = P lo hi c
Bounded P lo hi ((s, c) ∷ (s', c') ∷ rest) =
    (is_nan s' ≡ false)
    × (lo ≤ rank s')
    × P lo (rank s') c
    × Bounded P (rank s') hi ((s', c') ∷ rest)

module _ {A : Type 0} (P : ℕ → ℕ → A → Type 0) (data_of : A → Records)
    (rising : (lo hi : ℕ) (c : A) → P lo hi c → Rising lo hi (data_of c)) where
  pub Bounded-Rising :
      (cs : List (Double × A)) (lo hi : ℕ) → Bounded P lo hi cs → Rising lo hi (all_data data_of cs)
  Bounded-Rising [] lo hi b = absurd b
  Bounded-Rising ((s, c) ∷ []) lo hi b = rw (append-nil (data_of c)) (rising lo hi c b)
  Bounded-Rising ((s, c) ∷ (s', c') ∷ rest) lo hi (n, le, p, b) =
      Rising-append lo (rank s') hi (data_of c) (all_data data_of ((s', c') ∷ rest))
        (rising lo (rank s') c p) (Bounded-Rising ((s', c') ∷ rest) (rank s') hi b)

  bounds_le : (cs : List (Double × A)) (lo hi : ℕ) → Bounded P lo hi cs → lo ≤ hi
  bounds_le cs lo hi b = Rising_le lo hi (all_data data_of cs) (Bounded-Rising cs lo hi b)

  bounds_joined :
      (more : List (Double × A)) (lo hi : ℕ) (s s' : Double) (c c' : A) (rest : List (Double × A))
      → is_nan s' ≡ false
      → Bounded P lo (rank s') ((s, c) ∷ more)
      → Bounded P (rank s') hi ((s', c') ∷ rest)
      → Bounded P lo hi ((s, c) ∷ (more ++ ((s', c') ∷ rest)))
  bounds_joined [] lo hi s s' c c' rest n b b' = (n, bounds_le ((s, c) ∷ []) lo (rank s') b, b, b')
  bounds_joined ((s2, c2) ∷ more) lo hi s s' c c' rest n (n2, le, p, b) b' =
      (n2, le, p, bounds_joined more (rank s2) hi s2 s' c2 c' rest n b b')

  pub bounds_parted :
      (front : List (Double × A)) (lo hi : ℕ) (s0 s : Double) (c0 c : A) (back : List (Double × A))
      → Bounded P lo hi ((s0, c0) ∷ (front ++ ((s, c) ∷ back)))
      → (is_nan s ≡ false)
        × Bounded P lo (rank s) ((s0, c0) ∷ front)
        × Bounded P (rank s) hi ((s, c) ∷ back)
  bounds_parted [] lo hi s0 s c0 c back (n, le, p, b) = (n, p, b)
  bounds_parted ((s1, c1) ∷ front) lo hi s0 s c0 c back (n, le, p, b) =
      let (n', l, r) = bounds_parted front (rank s1) hi s1 s c1 c back b in (n', (n, le, p, l), r)

  bounds_extended :
      (cs : List (Double × A)) (lo hi : ℕ) (s s' : Double) (c : A)
      → is_nan s' ≡ false
      → lo ≤ rank s'
      → P lo (rank s') c
      → first_key cs ≡ s'
      → Bounded P (rank s') hi cs
      → Bounded P lo hi ((s, c) ∷ cs)
  unfolding first_key
  bounds_extended [] lo hi s s' c n le p first b = absurd b
  bounds_extended ((s2, c2) ∷ cs) lo hi s s' c n le p first b = rw first (n, le, p, b)

  -- The child that a key leads to, what is before it and behind it, and its bounds.
  pub record Focus (lo hi : ℕ) (cs : List (Double × A)) (k : Double) : Type 0 where
    pub before : List (Double × A)
    pub key : Double
    pub child : A
    pub behind : List (Double × A)
    pub from : ℕ
    pub to : ℕ
    pub whole : cs ≡ before ++ ((key, child) ∷ behind)
    pub place : child_rank cs k ≡ length before
    pub above : from ≤ rank k
    pub below : rank k < to
    pub inner : P from to child
    pub data_before : Rising lo from (all_data data_of before)
    pub data_behind : Rising to hi (all_data data_of behind)
    pub first :
        (c : A) (more : List (Double × A)) → first_key (before ++ ((key, c) ∷ more)) ≡ first_key cs
    -- Other children at the place of this one.
    pub rebuild :
        (c : A) (more : List (Double × A))
        → Bounded P from to ((key, c) ∷ more)
        → Bounded P lo hi (before ++ ((key, c) ∷ (more ++ behind)))

  pub focus :
      (rest : List (Double × A)) (lo hi : ℕ) (s : Double) (c : A) (k : Double)
      → is_nan k ≡ false
      → lo ≤ rank k
      → rank k < hi
      → Bounded P lo hi ((s, c) ∷ rest)
      → Focus lo hi ((s, c) ∷ rest) k
  unfolding child_rank first_above first_key
  focus [] lo hi s c k number above below b = record {
    before = [];
    key = s;
    child = c;
    behind = [];
    from = lo;
    to = hi;
    whole = refl;
    place = refl;
    above = above;
    below = below;
    inner = b;
    data_before = omega arith;
    data_behind = omega arith;
    first = λ c1 more. refl;
    rebuild = λ c1 more b1. rw (append-nil more) b1;
  }
  focus ((s', c') ∷ rest) lo hi s c k number above below (n, le, p, b) =
      elim (Bool-cases (double_lt k s')) [
        | inl t ↦ record {
          before = [];
          key = s;
          child = c;
          behind = (s', c') ∷ rest;
          from = lo;
          to = rank s';
          whole = refl;
          place = rw t refl;
          above = above;
          below = (double_lt→lt k s' t).2;
          inner = p;
          data_before = omega arith;
          data_behind = Bounded-Rising ((s', c') ∷ rest) (rank s') hi b;
          first = λ c1 more. refl;
          rebuild = λ c1 more b1. bounds_joined more lo hi s s' c1 c' rest n b1 b;
        }
        | inr f ↦
            let x = focus rest (rank s') hi s' c' k number (not_lt→le k s' number n f) below b in
            record {
              before = (s, c) ∷ x.before;
              key = x.key;
              child = x.child;
              behind = x.behind;
              from = x.from;
              to = x.to;
              whole = ap (◌∷◌ (s, c)) x.whole;
              place = rw f (ap suc x.place);
              above = x.above;
              below = x.below;
              inner = x.inner;
              data_before =
                  Rising-append lo (rank s') x.from (data_of c) (all_data data_of x.before)
                    (rising lo (rank s') c p) x.data_before;
              data_behind = x.data_behind;
              first = λ c1 more. refl;
              rebuild = λ c1 more b1.
                  bounds_extended (x.before ++ ((x.key, c1) ∷ (more ++ x.behind))) lo hi s s' c n le
                    p (x.first c1 (more ++ x.behind)) (x.rebuild c1 more b1);
            }
      ]
