-- ===== src/Rpc/RoundTrip.antt =====
-- Frames of src/common/rpc.cpp, written by one side of a connection and read by the other.
use plin_cloud_edge_device_l.Common.{
  ℕ, suc, ◌+◌, ◌-◌, ◌%◌, ◌^◌, ◌≤◌, ◌<◌, ◌≡◌, sym, ap, ◌∙◌, inl, inr, ◌⊎◌, true, List, [], ◌∷◌, ◌++◌,
  none, some, arith, length, take, drop, length-append, length-drop, ltb, append_assoc, append-nil,
  take-length, drop-length, Bool-cases, lt→ltb, le→not_ltb,
}
use plin_cloud_edge_device_l.Bytes.{le_bytes, of_le_bytes, swap_u32}
use plin_cloud_edge_device_l.Bytes.Fields.{
  length-le_bytes, of_le_bytes-le_bytes, swap_u32-swap_u32, swap_u32-lt,
}
use plin_cloud_edge_device_l.Proto.{Frame, MsgType, code, msg_type, IsMsgType}
use plin_cloud_edge_device_l.Rpc.{
  Chunks, read_all, read_body, read_payload, read_frame, Sink, write_all, is_empty, write_body,
  write_rest, write_frame,
}
use plin_cloud_edge_device_l.Rpc.Stream.{
  bytes, IsLive, read_all-Reads, read_all-short, write_all-Writes,
}

-- A frame whose length fits the header and whose type is as the code makes it.
abbrev pub IsFrame : Frame → Type 0
IsFrame f = IsMsgType f.kind × (1 + length f.body < 2 ^ 32)

-- The bytes of a frame: length of type and body, highest byte first; type; body.
abbrev pub frame_bytes : Frame → List ℕ
frame_bytes f = le_bytes 4 (swap_u32 (1 + length f.body)) ++ (le_bytes 1 (code f.kind) ++ f.body)

-- Reading `front` off a stream that begins with it.
read_all-front :
    (front tail : List ℕ) (cs : Chunks)
    → IsLive cs
    → bytes cs ≡ front ++ tail
    → (cs' : Chunks) × (read_all (length front) cs ≡ some (front, cs'))
      × (bytes cs' ≡ tail)
      × IsLive cs'
read_all-front front tail cs l e =
    let enough : length front ≤ length (bytes cs) =
      rw e (omega (arith, length-append front tail)) in
    let (cs', r, s, l') = read_all-Reads (length front) cs l enough in
    (
      cs',
      r ∙ ap (λ (x : List ℕ). some (x, cs')) (ap (take (length front)) e ∙ take-length front tail),
      s ∙ ap (drop (length front)) e ∙ drop-length front tail,
      l',
    )

-- The type byte, read back.
type_byte : (t : MsgType) → IsMsgType t → msg_type (of_le_bytes (le_bytes 1 (code t))) ≡ t
type_byte t v = ap msg_type (of_le_bytes-le_bytes 1 (code t) v.1) ∙ v.0

read_payload-empty :
    (t : MsgType) (cs cs' : Chunks)
    → IsMsgType t
    → read_all 1 cs ≡ some (le_bytes 1 (code t), cs')
    → read_payload 1 cs ≡ some (record { kind = t; body = [] }, cs')
unfolding read_payload
read_payload-empty t cs cs' v p = rw (p, type_byte t v)

read_payload-body :
    (t : MsgType) (b : ℕ) (bs : List ℕ) (cs cs' cs'' : Chunks)
    → IsMsgType t
    → read_all 1 cs ≡ some (le_bytes 1 (code t), cs')
    → read_all (suc (length bs)) cs' ≡ some (b ∷ bs, cs'')
    → read_payload (1 + suc (length bs)) cs ≡ some (record { kind = t; body = b ∷ bs }, cs'')
unfolding read_payload
read_payload-body t b bs cs cs' cs'' v p q =
    let count : 1 + suc (length bs) - 1 ≡ suc (length bs) = omega arith in
    rw (p, count, lt→ltb 0 (suc (length bs)) (omega arith), q, type_byte t v)

read_payload-frame :
    (t : MsgType) (body tail : List ℕ) (cs : Chunks)
    → IsMsgType t
    → IsLive cs
    → bytes cs ≡ le_bytes 1 (code t) ++ (body ++ tail)
    → (cs' : Chunks) × (read_payload (1 + length body) cs
        ≡ some (record { kind = t; body = body }, cs'))
      × (bytes cs' ≡ tail)
      × IsLive cs'
read_payload-frame t [] tail cs v l e =
    let (cs', r, s, l') = read_all-front (le_bytes 1 (code t)) tail cs l e in
    (
      cs',
      read_payload-empty t cs cs' v
          (ap (λ n. read_all n cs) (sym (length-le_bytes 1 (code t))) ∙ r),
      s,
      l',
    )
read_payload-frame t (b ∷ bs) tail cs v l e =
    let (cs', r, s, l') = read_all-front (le_bytes 1 (code t)) (b ∷ bs ++ tail) cs l e in
    let (cs'', r', s', l'') = read_all-front (b ∷ bs) tail cs' l' s in
    (
      cs'',
      read_payload-body t b bs cs cs' cs'' v
          (ap (λ n. read_all n cs) (sym (length-le_bytes 1 (code t))) ∙ r) r',
      s',
      l'',
    )

header : (n : ℕ) → n < 2 ^ 32 → swap_u32 (of_le_bytes (le_bytes 4 (swap_u32 n))) ≡ n
header n h =
    ap swap_u32 (of_le_bytes-le_bytes 4 (swap_u32 n) (omega (arith, swap_u32-lt n)))
    ∙ swap_u32-swap_u32 n h

read_frame-header :
    (n : ℕ) (cs cs' : Chunks)
    → 0 < n
    → n < 2 ^ 32
    → read_all 4 cs ≡ some (le_bytes 4 (swap_u32 n), cs')
    → read_frame cs ≡ read_payload n cs'
unfolding read_frame
read_frame-header n cs cs' pos h p = rw (p, header n h, le→not_ltb n 1 pos)

-- A frame that stands at the front of a stream is read whole, however the kernel cuts the stream, and
-- exactly the bytes behind it stay.
read_frame-frame_bytes :
    (f : Frame) (cs : Chunks) (tail : List ℕ)
    → IsFrame f
    → IsLive cs
    → bytes cs ≡ frame_bytes f ++ tail
    → (cs' : Chunks) × (read_frame cs ≡ some (f, cs')) × (bytes cs' ≡ tail) × IsLive cs'
read_frame-frame_bytes f cs tail v l e =
    let len = 1 + length f.body in
    let head = le_bytes 4 (swap_u32 len) in
    let kind = le_bytes 1 (code f.kind) in
    let (cs', r, s, l') = read_all-front head (kind ++ (f.body ++ tail)) cs l (
      e
      ∙ append_assoc head (kind ++ f.body) tail
      ∙ ap (◌++◌ head) (append_assoc kind f.body tail)) in
    let (cs'', r', s', l'') = read_payload-frame f.kind f.body tail cs' v.0 l' s in
    (
      cs'',
      read_frame-header len cs cs' (omega arith) v.1
            (ap (λ n. read_all n cs) (sym (length-le_bytes 4 (swap_u32 len))) ∙ r)
          ∙ r',
      s',
      l'',
    )

write_all-true :
    (s : Sink) (buf : List ℕ)
    → (write_all s buf).0 ≡ true
    → (write_all s buf).1.sent ≡ s.sent ++ buf
write_all-true s buf h = elim (write_all-Writes s buf) [ inl (_, e) ↦ e | inr (p, _) ↦ cc ]

write_body-true :
    (s : Sink) (body : List ℕ)
    → (write_body s body).0 ≡ true
    → (write_body s body).1.sent ≡ s.sent ++ body
unfolding write_body is_empty
write_body-true s [] h = sym (append-nil s.sent)
write_body-true s (b ∷ bs) h = write_all-true s (b ∷ bs) h

write_rest-true :
    (s : Sink) (f : Frame)
    → (write_rest s f).0 ≡ true
    → (write_rest s f).1.sent ≡ s.sent ++ (le_bytes 1 (code f.kind) ++ f.body)
unfolding write_rest
write_rest-true s f h = elim (Bool-cases (write_all s (le_bytes 1 (code f.kind))).0) [
  | inr t ↦ cc (rw t at h)
  | inl t ↦ rw t (
      write_body-true (write_all s (le_bytes 1 (code f.kind))).1 f.body (rw t at h)
      ∙ ap (λ x. x ++ f.body) (write_all-true s (le_bytes 1 (code f.kind)) t)
      ∙ append_assoc s.sent (le_bytes 1 (code f.kind)) f.body)
]

write_frame-sent :
    (s : Sink) (f : Frame)
    → IsFrame f
    → (write_frame s f).0 ≡ true
    → (write_frame s f).1.sent ≡ s.sent ++ frame_bytes f
unfolding write_frame
write_frame-sent s f v h =
    let head = le_bytes 4 (swap_u32 (1 + length f.body)) in
    let len : (1 + length f.body % 2 ^ 32) % 2 ^ 32 ≡ 1 + length f.body = omega arith in
    elim (Bool-cases (write_all s head).0) [
      | inr t ↦ cc (rw (len, t) at h)
      | inl t ↦
          rw (len, t)
            (write_rest-true (write_all s head).1 f (rw (len, t) at h)
              ∙ ap (λ x. x ++ (le_bytes 1 (code f.kind) ++ f.body)) (write_all-true s head t)
              ∙ append_assoc s.sent head (le_bytes 1 (code f.kind) ++ f.body))
    ]

-- A frame for which `write_frame` returns true is the next one that `read_frame` returns on the other
-- side: for a frame whose length fits 32 bits, after any earlier traffic, with any bytes behind it, and
-- with any cut of the stream into chunks on either side. The bytes behind it stay.
pub read_frame-write_frame :
    (s : Sink) (f : Frame) (cs : Chunks) (tail : List ℕ)
    → IsFrame f
    → (write_frame s f).0 ≡ true
    → IsLive cs
    → bytes cs ≡ drop (length s.sent) (write_frame s f).1.sent ++ tail
    → (cs' : Chunks) × (read_frame cs ≡ some (f, cs')) × (bytes cs' ≡ tail) × IsLive cs'
read_frame-write_frame s f cs tail v h l e =
    let wire =
      ap (drop (length s.sent)) (write_frame-sent s f v h) ∙ drop-length s.sent (frame_bytes f) in
    read_frame-frame_bytes f cs tail v l (e ∙ ap (λ x. x ++ tail) wire)

read_payload-short :
    (n : ℕ) (cs : Chunks) → IsLive cs → length (bytes cs) < n → read_payload n cs ≡ none
unfolding read_payload
read_payload-short n cs l h = elim (Bool-cases (ltb (length (bytes cs)) 1)) [
  | inl t ↦ rw (read_all-short 1 cs l (ground (arith, t)))
  | inr f ↦
      let enough : 1 ≤ length (bytes cs) = ground (arith, f) in
      let (cs', r, s, l') = read_all-Reads 1 cs l enough in
      let behind : length (bytes cs') < n - 1 =
        rw s (omega (arith, h, enough, length-drop 1 (bytes cs))) in
      let failed : read_all (n - 1) cs' ≡ none = read_all-short (n - 1) cs' l' behind in
      rw (r, lt→ltb 0 (n - 1) (omega (arith, behind))) (unfold read_body in rw failed)
]

-- A stream that ends inside a frame gives no frame, wherever it ends: in the four bytes of the length, or
-- before as many bytes as they announce, the type byte and the body. Nor does a length of 0, which leaves
-- no type byte.
pub read_frame_fails :
    (cs : Chunks)
    → IsLive cs
    → (length (bytes cs) < 4)
      ⊎ ((n : ℕ) × (tail : List ℕ) × (bytes cs ≡ le_bytes 4 (swap_u32 n) ++ tail)
          × (n < 2 ^ 32)
          × ((n ≡ 0) ⊎ (length tail < n)))
    → read_frame cs ≡ none
unfolding read_frame
read_frame_fails cs l (inl h) = rw (read_all-short 4 cs l h)
read_frame_fails cs l (inr (n, tail, e, fits, few)) =
    let (cs', r, s, l') = read_all-front (le_bytes 4 (swap_u32 n)) tail cs l e in
    let r' = ap (λ x. read_all x cs) (sym (length-le_bytes 4 (swap_u32 n))) ∙ r in
    elim few [
      | inl zero_length ↦ rw (r', header n fits, zero_length)
      | inr short ↦
          read_frame-header n cs cs' (omega (arith, short)) fits r'
          ∙ read_payload-short n cs' l' (rw s short)
    ]
