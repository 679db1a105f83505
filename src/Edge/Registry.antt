-- ===== src/Edge/Registry.antt =====
-- The Ends that an Edge can reach: `register_end`, `unregister_transport` and `send_to_end` of
-- src/edge/edge_server.cpp.
use plin_cloud_edge_device_l.Common.{
  ℕ, ◌≡◌, refl, ◌≢◌, inl, inr, Bool, true, false, List, [], ◌∷◌, Option, none, some, arith, ◌==◌,
  if◌then◌else◌, Bool-cases, sym, ap, ◌∙◌,
}
use plin_cloud_edge_device_l.Common.Int.{ℤ, ◌==ℤ◌, ==ℤ-cases}
use mathlib.Core.Path.{subst}
use plin_cloud_edge_device_l.Edge.{
  Runtime, assign, register_end, erase_conn, unregister_transport, find_end,
}

find_end-assign :
    (i j : ℤ) (conn : ℕ) (ends : List (ℤ × ℕ))
    → find_end j (assign i conn ends) ≡ (if i ==ℤ j then some conn else find_end j ends)
unfolding find_end assign
find_end-assign i j conn [] = refl
find_end-assign i j conn ((x, y) ∷ ends) =
    ground (arith, ==ℤ-cases x i, ==ℤ-cases i j, ==ℤ-cases x j, find_end-assign i j conn ends)

-- A registration is found under its own id and leaves those of other Ends as they were.
find_end-register_end :
    (i j : ℤ) (conn : ℕ) (rt : Runtime)
    → find_end j (register_end i conn rt).ends ≡ (if i ==ℤ j then some conn else find_end j rt.ends)
unfolding register_end
find_end-register_end i j conn rt = find_end-assign i j conn rt.ends

-- The ids of a map are different.
abbrev pub Fresh : ℤ → List (ℤ × ℕ) → Type 0
Fresh i [] = Unit {0}
Fresh i ((x, y) ∷ ends) = (x ≢ i) × Fresh i ends

abbrev pub IsMap : List (ℤ × ℕ) → Type 0
IsMap [] = Unit {0}
IsMap ((x, y) ∷ ends) = Fresh x ends × IsMap ends

Fresh-find_end : (i : ℤ) (ends : List (ℤ × ℕ)) → Fresh i ends → find_end i ends ≡ none
unfolding find_end
Fresh-find_end i [] f = refl
Fresh-find_end i ((x, y) ∷ ends) (n, f) = ground (arith, ==ℤ-cases x i, Fresh-find_end i ends f)

Fresh-assign :
    (i j : ℤ) (conn : ℕ) (ends : List (ℤ × ℕ)) → j ≢ i → Fresh i ends → Fresh i (assign j conn ends)
unfolding assign
Fresh-assign i j conn [] n f = (n, tt)
Fresh-assign i j conn ((x, y) ∷ ends) n (m, f) = elim (==ℤ-cases x j) [
  | inl (t, _) ↦ rw t (n, f)
  | inr (t, _) ↦ rw t (m, Fresh-assign i j conn ends n f)
]

Fresh-erase_conn :
    (i : ℤ) (conn : ℕ) (ends : List (ℤ × ℕ)) → Fresh i ends → Fresh i (erase_conn conn ends)
unfolding erase_conn
Fresh-erase_conn i conn [] f = tt
Fresh-erase_conn i conn ((x, y) ∷ ends) (n, f) = elim (Bool-cases (y == conn)) [
  | inl t ↦ rw t (Fresh-erase_conn i conn ends f)
  | inr t ↦ rw t (n, Fresh-erase_conn i conn ends f)
]

assign-IsMap : (j : ℤ) (conn : ℕ) (ends : List (ℤ × ℕ)) → IsMap ends → IsMap (assign j conn ends)
unfolding assign
assign-IsMap j conn [] m = (tt, tt)
assign-IsMap j conn ((x, y) ∷ ends) (f, m) = elim (==ℤ-cases x j) [
  | inl (t, e) ↦ rw t (subst (λ i. Fresh i ends) e f, m)
  | inr (t, n) ↦ rw t (Fresh-assign x j conn ends (λ e. n (sym e)) f, assign-IsMap j conn ends m)
]

erase_conn-IsMap : (conn : ℕ) (ends : List (ℤ × ℕ)) → IsMap ends → IsMap (erase_conn conn ends)
unfolding erase_conn
erase_conn-IsMap conn [] m = tt
erase_conn-IsMap conn ((x, y) ∷ ends) (f, m) = elim (Bool-cases (y == conn)) [
  | inl t ↦ rw t (erase_conn-IsMap conn ends m)
  | inr t ↦ rw t (Fresh-erase_conn x conn ends f, erase_conn-IsMap conn ends m)
]

-- `none` for the connection that is erased.
abbrev pub unless : ℕ → Option ℕ → Option ℕ
unless conn none = none
unless conn (some y) = if y == conn then none else some y

find_end-erase_conn :
    (i : ℤ) (conn : ℕ) (ends : List (ℤ × ℕ))
    → IsMap ends
    → find_end i (erase_conn conn ends) ≡ unless conn (find_end i ends)
unfolding find_end erase_conn
find_end-erase_conn i conn [] m = refl
find_end-erase_conn i conn ((x, y) ∷ ends) (f, m) = elim (==ℤ-cases x i) [
  | inr (t, _) ↦ elim (Bool-cases (y == conn)) [
    | inl u ↦ rw (u, t) (find_end-erase_conn i conn ends m)
    | inr u ↦ rw (u, t) (find_end-erase_conn i conn ends m)
  ]
  | inl (t, e) ↦ elim (Bool-cases (y == conn)) [
    | inl u ↦
        let gone =
          Fresh-find_end i (erase_conn conn ends)
            (Fresh-erase_conn i conn ends (subst (λ j. Fresh j ends) e f)) in
        rw (u, t) (rw u gone)
    | inr u ↦ rw (u, t) (rw u refl)
  ]
]

keep_new :
    (old new : ℕ) (b : Bool) (o : Option ℕ)
    → old ≢ new
    → unless old (if b then some new else o) ≡ (if b then some new else unless old o)
keep_new old new true o n = ground arith
keep_new old new false o n = refl

-- An End that connects anew is reached over its new connection, also when the Edge notices only later
-- that the old one is gone; other Ends are reached as before, but for those of the old connection.
pub find_end-reconnect :
    (i j : ℤ) (old new : ℕ) (rt : Runtime)
    → IsMap rt.ends
    → old ≢ new
    → find_end j (unregister_transport old (register_end i new rt)).ends
      ≡ (if i ==ℤ j then some new else unless old (find_end j rt.ends))
unfolding unregister_transport register_end
find_end-reconnect i j old new rt m n =
    find_end-erase_conn j old (assign i new rt.ends) (assign-IsMap i new rt.ends m)
    ∙ ap (unless old) (find_end-assign i j new rt.ends)
    ∙ keep_new old new (i ==ℤ j) (find_end j rt.ends) n
