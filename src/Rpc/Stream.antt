-- ===== src/Rpc/Stream.antt =====
-- `read_all` and `write_all` of src/common/rpc.cpp against the plain sequence of bytes: how the
-- kernel cuts the stream into chunks does not show.
use plin_cloud_edge_device_l.Common.{
  ℕ, zero, suc, ◌-◌, ◌≤◌, ◌<◌, ◌≡◌, refl, sym, ap, ◌∙◌, ◌⊎◌, inl, inr, ◌≢◌, Bool, true, false, List,
  [], ◌∷◌, ◌++◌, Option, none, some, arith, length, take, drop, length-append, append_assoc,
  append-nil, leb, le→leb, take-append-drop, length-take, Bool-cases,
}
use plin_cloud_edge_device_l.Rpc.{
  Chunks, sys_read, read_loop, read_all, Sink, write_loop, write_all,
}

abbrev pub bytes : Chunks → List ℕ
bytes [] = []
bytes (c ∷ cs) = c ++ bytes cs

-- Data that is on its way: no call of `read` fails or meets the end before the last chunk.
abbrev pub IsLive : Chunks → Type 0
IsLive [] = Unit {0}
IsLive ([] ∷ cs) = ⊥
IsLive ((b ∷ bs) ∷ cs) = IsLive cs

-- What `read_all n` gives on a stream of bytes: the first `n` of them, and the others stay.
abbrev pub Reads : ℕ → Chunks → Option (List ℕ × Chunks) → Type 0
Reads n cs r =
    (cs' : Chunks) × (r ≡ some (take n (bytes cs), cs'))
    × (bytes cs' ≡ drop n (bytes cs))
    × IsLive cs'

take-append_le {ℓ} :
    {A : Type ℓ} (n : ℕ) (xs ys : List A)
    → length xs ≤ n
    → take n (xs ++ ys) ≡ xs ++ take (n - length xs) ys
take-append_le n [] ys h = ap (λ m. take m ys) (omega arith)
take-append_le zero (x ∷ xs) ys h = absurd (omega arith)
take-append_le (suc n) (x ∷ xs) ys h =
    ap (◌∷◌ x) (take-append_le n xs ys (omega arith) ∙ ap (λ m. xs ++ take m ys) (omega arith))

drop-append_le {ℓ} :
    {A : Type ℓ} (n : ℕ) (xs ys : List A)
    → length xs ≤ n
    → drop n (xs ++ ys) ≡ drop (n - length xs) ys
drop-append_le n [] ys h = ap (λ m. drop m ys) (omega arith)
drop-append_le zero (x ∷ xs) ys h = absurd (omega arith)
drop-append_le (suc n) (x ∷ xs) ys h =
    drop-append_le n xs ys (omega arith) ∙ ap (λ m. drop m ys) (omega arith)

take-append_lt {ℓ} :
    {A : Type ℓ} (n : ℕ) (xs ys : List A) → n ≤ length xs → take n (xs ++ ys) ≡ take n xs
take-append_lt zero xs ys h = refl
take-append_lt (suc n) [] ys h = absurd (omega arith)
take-append_lt (suc n) (x ∷ xs) ys h = ap (◌∷◌ x) (take-append_lt n xs ys (omega arith))

drop-append_lt {ℓ} :
    {A : Type ℓ} (n : ℕ) (xs ys : List A) → n ≤ length xs → drop n (xs ++ ys) ≡ drop n xs ++ ys
drop-append_lt zero xs ys h = refl
drop-append_lt (suc n) [] ys h = absurd (omega arith)
drop-append_lt (suc n) (x ∷ xs) ys h = drop-append_lt n xs ys (omega arith)

IsLive-drop : (n : ℕ) (c : List ℕ) (cs : Chunks) → n < length c → IsLive cs → IsLive (drop n c ∷ cs)
IsLive-drop n [] cs h l = elim h [ ]
IsLive-drop zero (b ∷ c) cs h l = l
IsLive-drop (suc n) (b ∷ c) cs h l = IsLive-drop n c cs (omega arith) l

read_loop_step :
    (fuel n : ℕ) (cs cs' cs'' : Chunks) (got more : List ℕ)
    → sys_read (suc n) cs ≡ some (got, cs')
    → read_loop fuel (suc n - length got) cs' ≡ some (more, cs'')
    → read_loop (suc fuel) (suc n) cs ≡ some (got ++ more, cs'')
unfolding read_loop
read_loop_step fuel n cs cs' cs'' got more p q = rw (p, q)

sys_read-whole :
    (n b : ℕ) (bs : List ℕ) (cs : Chunks)
    → leb (length (b ∷ bs)) n ≡ true
    → sys_read n ((b ∷ bs) ∷ cs) ≡ some (b ∷ bs, cs)
unfolding sys_read
sys_read-whole n b bs cs h = rw h

sys_read-part :
    (n b : ℕ) (bs : List ℕ) (cs : Chunks)
    → leb (length (b ∷ bs)) n ≡ false
    → sys_read n ((b ∷ bs) ∷ cs) ≡ some (take n (b ∷ bs), drop n (b ∷ bs) ∷ cs)
unfolding sys_read
sys_read-part n b bs cs h = rw h

read_loop-zero : (fuel : ℕ) (cs : Chunks) → read_loop fuel 0 cs ≡ some ([], cs)
unfolding read_loop
read_loop-zero fuel cs = refl

read_loop-Reads :
    (fuel n : ℕ) (cs : Chunks)
    → n ≤ fuel
    → IsLive cs
    → n ≤ length (bytes cs)
    → Reads n cs (read_loop fuel n cs)
read_loop-Reads fuel zero cs f l h = (cs, read_loop-zero fuel cs, refl, l)
read_loop-Reads zero (suc n) cs f l h = absurd (omega arith)
read_loop-Reads (suc fuel) (suc n) [] f l h = absurd (omega arith)
read_loop-Reads (suc fuel) (suc n) ([] ∷ cs) f l h = absurd l
read_loop-Reads (suc fuel) (suc n) ((b ∷ bs) ∷ cs) f l h =
    elim (Bool-cases (leb (length (b ∷ bs)) (suc n))) [
      | inl whole ↦
          let fits : length (b ∷ bs) ≤ suc n = ground arith in
          let (cs', r, s, l') =
            read_loop-Reads fuel (suc n - length (b ∷ bs)) cs (omega arith) l
              (omega (arith, length-append (b ∷ bs) (bytes cs))) in
          (
            cs',
            read_loop_step fuel n ((b ∷ bs) ∷ cs) cs cs' (b ∷ bs) _
                  (sys_read-whole (suc n) b bs cs whole) r
                ∙ ap (λ (x : List ℕ). some (x, cs'))
                    (sym (take-append_le (suc n) (b ∷ bs) (bytes cs) fits)),
            s ∙ sym (drop-append_le (suc n) (b ∷ bs) (bytes cs) fits),
            l',
          )
      | inr part ↦
          let over : suc n < length (b ∷ bs) = ground arith in
          let left : suc n - length (take (suc n) (b ∷ bs)) ≡ 0 =
            omega (arith, length-take (suc n) (b ∷ bs)) in
          (
            drop (suc n) (b ∷ bs) ∷ cs,
            read_loop_step fuel n ((b ∷ bs) ∷ cs) _ _ (take (suc n) (b ∷ bs)) []
                  (sys_read-part (suc n) b bs cs part) (rw left (read_loop-zero fuel _))
                ∙ ap (λ (x : List ℕ). some (x, drop (suc n) (b ∷ bs) ∷ cs))
                    (append-nil (take (suc n) (b ∷ bs))
                      ∙ sym (take-append_lt (suc n) (b ∷ bs) (bytes cs) (omega arith))),
            sym (drop-append_lt (suc n) (b ∷ bs) (bytes cs) (omega arith)),
            IsLive-drop (suc n) (b ∷ bs) cs over l,
          )
    ]

-- `read_all n` returns the first `n` bytes of the stream, whatever its chunks, and leaves the others.
pub read_all-Reads :
    (n : ℕ) (cs : Chunks) → IsLive cs → n ≤ length (bytes cs) → Reads n cs (read_all n cs)
unfolding read_all
read_all-Reads n cs l h = read_loop-Reads n n cs (omega arith) l h

read_loop_fail :
    (fuel n : ℕ) (cs cs' : Chunks) (got : List ℕ)
    → sys_read (suc n) cs ≡ some (got, cs')
    → read_loop fuel (suc n - length got) cs' ≡ none
    → read_loop (suc fuel) (suc n) cs ≡ none
unfolding read_loop
read_loop_fail fuel n cs cs' got p q = rw (p, q)

read_loop_eof : (fuel n : ℕ) → read_loop fuel (suc n) [] ≡ none
unfolding read_loop sys_read
read_loop_eof zero n = refl
read_loop_eof (suc fuel) n = refl

read_loop-short :
    (fuel n : ℕ) (cs : Chunks) → IsLive cs → length (bytes cs) < n → read_loop fuel n cs ≡ none
read_loop-short fuel zero cs l h = absurd (omega arith)
read_loop-short fuel (suc n) [] l h = read_loop_eof fuel n
read_loop-short zero (suc n) (c ∷ cs) l h = unfold read_loop in refl
read_loop-short (suc fuel) (suc n) ([] ∷ cs) l h = absurd l
read_loop-short (suc fuel) (suc n) ((b ∷ bs) ∷ cs) l h =
    let len = length-append (b ∷ bs) (bytes cs) in
    read_loop_fail fuel n ((b ∷ bs) ∷ cs) cs (b ∷ bs)
      (sys_read-whole (suc n) b bs cs (le→leb (length (b ∷ bs)) (suc n) (omega arith)))
      (read_loop-short fuel (suc n - length (b ∷ bs)) cs l (omega arith))

-- If the stream ends before `n` bytes, `read_all n` is false.
pub read_all-short :
    (n : ℕ) (cs : Chunks) → IsLive cs → length (bytes cs) < n → read_all n cs ≡ none
unfolding read_all
read_all-short n cs l h = read_loop-short n n cs l h

-- The bytes that have been sent after a call for a buffer, and its result.
abbrev pub Writes : List ℕ → List ℕ → Bool × Sink → Type 0
Writes sent buf r =
    ((r.0 ≡ true) × (r.1.sent ≡ sent ++ buf))
    ⊎ ((r.0 ≡ false)
        × ((front back : List ℕ) × (buf ≡ front ++ back)
            × (back ≢ [])
            × (r.1.sent ≡ sent ++ front)))

write_loop-Writes : (sent ws buf : List ℕ) → Writes sent buf (write_loop sent ws buf)
unfolding write_loop
write_loop-Writes sent ws [] = inl (refl, sym (append-nil sent))
write_loop-Writes sent [] (b ∷ bs) =
    inr (refl, ([], b ∷ bs, refl, (λ e. cc), sym (append-nil sent)))
write_loop-Writes sent (zero ∷ ws) (b ∷ bs) =
    inr (refl, ([], b ∷ bs, refl, (λ e. cc), sym (append-nil sent)))
write_loop-Writes sent (suc w ∷ ws) (b ∷ bs) =
    more (write_loop (sent ++ take (suc w) (b ∷ bs)) ws (drop (suc w) (b ∷ bs)))
      (write_loop-Writes (sent ++ take (suc w) (b ∷ bs)) ws (drop (suc w) (b ∷ bs)))
  where
    cut : List ℕ
    cut = take (suc w) (b ∷ bs)

    rest : List ℕ
    rest = drop (suc w) (b ∷ bs)

    more : (r : Bool × Sink) → Writes (sent ++ cut) rest r → Writes sent (b ∷ bs) r
    more r (inl (p, q)) =
        inl (p, q ∙ append_assoc sent cut rest ∙ ap (◌++◌ sent) (take-append-drop (suc w) (b ∷ bs)))
    more r (inr (p, (front, back, e, ne, q))) = inr (
      p,
      (
        cut ++ front,
        back,
        sym (take-append-drop (suc w) (b ∷ bs))
            ∙ ap (◌++◌ cut) e
            ∙ sym (append_assoc cut front back),
        ne,
        q ∙ append_assoc sent cut front,
      ),
    )

-- `write_all` that returns true has sent the buffer, and one that returns false a proper part of it from
-- the front, however many bytes each call of `write` takes.
pub write_all-Writes : (s : Sink) (buf : List ℕ) → Writes s.sent buf (write_all s buf)
unfolding write_all
write_all-Writes s buf = write_loop-Writes s.sent s.accepts buf
