-- ===== src/RangeMap/Tests.antt =====
-- A topology of three Ends on two Edges, and the lookups in it.
use plin_cloud_edge_device_l.Common.{
  ℕ, zero, suc, ◌≤◌, ◌<◌, ◌≡◌, refl, sym, ◌↔◌, false, List, [], ◌∷◌, some, arith, get_elem?,
}
use plin_cloud_edge_device_l.Common.Int.{ℤ, pos, negsuc, ◌≤ℤ◌}
use plin_cloud_edge_device_l.Double.{Double, is_nan, rank}
use mathlib.Core.Path.{subst}
use mathlib.Core.Option.{some-injective}
use plin_cloud_edge_device_l.RangeMap.{
  EndInfo, locate, locate_end, edge_of, siblings_loop, siblings_of,
}
use plin_cloud_edge_device_l.RangeMap.Locate.{
  IsTopology, Contains, locate_end-Contains, locate_end_gap,
}
use plin_cloud_edge_device_l.RangeMap.Total.{locate_total, locate_end-nan}
use plin_cloud_edge_device_l.RangeMap.Siblings.{Some, Neighbour, siblings_of_iff}

-- The keys from 1.0 to 2.0.
abbrev pub end_one : EndInfo
end_one = record {
  id = pos 1;
  edge_id = pos 1;
  host = [];
  port = 9001;
  key_lo = 0x3ff0_0000_0000_0000;
  key_hi = 0x4000_0000_0000_0000;
}

-- The keys from 4.0 to 8.0.
abbrev pub end_two : EndInfo
end_two = record {
  id = pos 2;
  edge_id = pos 1;
  host = [];
  port = 9001;
  key_lo = 0x4010_0000_0000_0000;
  key_hi = 0x4020_0000_0000_0000;
}

-- The keys from 16.0 to 32.0, on another Edge.
abbrev pub end_three : EndInfo
end_three = record {
  id = pos 3;
  edge_id = pos 2;
  host = [];
  port = 9002;
  key_lo = 0x4030_0000_0000_0000;
  key_hi = 0x4040_0000_0000_0000;
}

abbrev pub topology : List EndInfo
topology = end_one ∷ end_two ∷ end_three ∷ []

abbrev Ordered : EndInfo → Type 0
Ordered e = (is_nan e.key_lo ≡ false) × (is_nan e.key_hi ≡ false) × (rank e.key_lo ≤ rank e.key_hi)

ordered : (x e : EndInfo) → some x ≡ some e → Ordered x → Ordered e
ordered x e h = subst Ordered (some-injective x e h)

topology-Ordered : (i : ℕ) (e : EndInfo) → get_elem? topology i ≡ some e → Ordered e
unfolding is_nan rank
topology-Ordered zero e h = ordered end_one e h (refl, refl, omega arith)
topology-Ordered (suc zero) e h = ordered end_two e h (refl, refl, omega arith)
topology-Ordered (suc (suc zero)) e h = ordered end_three e h (refl, refl, omega arith)
topology-Ordered (suc (suc (suc i))) e h = cc

abbrev Apart : EndInfo → EndInfo → Type 0
Apart a b = rank a.key_hi < rank b.key_lo

apart : (x y a b : EndInfo) → some x ≡ some a → some y ≡ some b → Apart x y → Apart a b
apart x y a b h i r =
    subst (λ u. Apart a u) (some-injective y b i) (subst (λ u. Apart u y) (some-injective x a h) r)

topology-Apart :
    (i j : ℕ) (a b : EndInfo)
    → get_elem? topology i ≡ some a
    → get_elem? topology j ≡ some b
    → i < j
    → Apart a b
unfolding rank
topology-Apart zero (suc zero) a b p q h = apart end_one end_two a b p q (omega arith)
topology-Apart zero (suc (suc zero)) a b p q h = apart end_one end_three a b p q (omega arith)
topology-Apart (suc zero) (suc (suc zero)) a b p q h = apart end_two end_three a b p q (omega arith)
topology-Apart (suc (suc (suc i))) j a b p q h = cc
topology-Apart i (suc (suc (suc j))) a b p q h = cc
topology-Apart i zero a b p q h = absurd (omega arith)
topology-Apart (suc i) (suc zero) a b p q h = absurd (omega arith)
topology-Apart (suc (suc i)) (suc (suc zero)) a b p q h = absurd (omega arith)

pub topology-IsTopology : IsTopology topology
topology-IsTopology = record { numbers = topology-Ordered; apart = topology-Apart }

-- 6.0.
abbrev pub six : Double
six = 0x4018_0000_0000_0000

-- 12.0, in the gap between the second range and the third.
abbrev twelve : Double
twelve = 0x4028_0000_0000_0000

abbrev nan : Double
nan = 0x7ff8_0000_0000_0000

pub end_two-Contains : Contains end_two six
unfolding rank
end_two-Contains = (omega arith, omega arith)

locate_end-Contains_example : locate_end topology six ≡ pos 2
locate_end-Contains_example =
    locate_end-Contains topology six 1 end_two topology-IsTopology (unfold is_nan in refl) refl
      end_two-Contains

out_of_ranges : (i : ℕ) (e : EndInfo) → get_elem? topology i ≡ some e → ¬ Contains e twelve
unfolding rank
out_of_ranges zero e h c =
    absurd (omega (arith, subst (λ x. Contains x twelve) (some-injective e end_one (sym h)) c))
out_of_ranges (suc zero) e h c =
    absurd (omega (arith, subst (λ x. Contains x twelve) (some-injective e end_two (sym h)) c))
out_of_ranges (suc (suc zero)) e h c =
    absurd (omega (arith, subst (λ x. Contains x twelve) (some-injective e end_three (sym h)) c))
out_of_ranges (suc (suc (suc i))) e h c = absurd cc

locate_end_gap_example : locate_end topology twelve ≡ negsuc 0
locate_end_gap_example =
    locate_end_gap topology twelve topology-IsTopology (unfold is_nan in refl) out_of_ranges

locate_total_example : (r : ℤ) × (locate (end_three ∷ end_one ∷ []) nan ≡ some r)
locate_total_example = locate_total (end_three ∷ end_one ∷ []) nan

locate_end-nan_example : locate_end topology nan ≡ pos 2
locate_end-nan_example = locate_end-nan topology nan end_two (unfold is_nan in refl) refl

siblings_of_iff_example : Some (λ s. s ≡ pos 2) (siblings_of topology (pos 1)) ↔ (
    (pos 0 ≤ℤ edge_of topology (pos 1))
    × Some (Neighbour (edge_of topology (pos 1)) (pos 1) (pos 2)) topology)
siblings_of_iff_example = siblings_of_iff topology (pos 1) (pos 2)

test-siblings_of : siblings_of topology (pos 1) ≡ pos 2 ∷ []
unfolding siblings_of siblings_loop edge_of
test-siblings_of = refl
