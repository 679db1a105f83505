-- ===== src/Rpc.antt =====
-- src/common/rpc.cpp: length-prefixed frames over a connected socket. What the kernel hands over is
-- part of the socket: the chunks that successive calls of `read` find, and the byte counts that
-- successive calls of `write` accept. An empty chunk or a count of 0 is end of file or an error.
pub mod Stream
pub mod RoundTrip
mod Tests
use plin_cloud_edge_device_l.Common.{
  ℕ, zero, suc, ◌+◌, ◌-◌, ◌%◌, ◌^◌, Bool, true, false, List, [], ◌∷◌, ◌++◌, Option, none, some, ltb,
  leb, ◌==◌, if◌then◌else◌, length, take, drop, ◌>>=◌,
}
use plin_cloud_edge_device_l.Bytes.{le_bytes, of_le_bytes, swap_u32}
use plin_cloud_edge_device_l.Proto.{Frame, code, msg_type}

abbrev pub Chunks : Type 0
Chunks = List (List ℕ)

-- One call `read(fd, p, n)` at `n > 0`: at most `n` bytes; `none` is a result that is not positive.
unfoldable pub sys_read : ℕ → Chunks → Option (List ℕ × Chunks)
sys_read n [] = none
sys_read n ([] ∷ cs) = none
sys_read n ((b ∷ bs) ∷ cs) =
    if leb (length (b ∷ bs)) n
    then some (b ∷ bs, cs)
    else some (take n (b ∷ bs), drop n (b ∷ bs) ∷ cs)

-- The loop of `read_all`; each call reads a byte at least, so `n` rounds are enough.
unfoldable pub read_loop : ℕ → ℕ → Chunks → Option (List ℕ × Chunks)
read_loop fuel zero cs = some ([], cs)
read_loop zero (suc n) cs = none
read_loop (suc fuel) (suc n) cs = do
  (got, cs') ← sys_read (suc n) cs
  (more, cs'') ← read_loop fuel (suc n - length got) cs'
  some (got ++ more, cs'')

unfoldable pub read_all : ℕ → Chunks → Option (List ℕ × Chunks)
read_all n cs = read_loop n n cs

unfoldable pub read_body : Frame → ℕ → Chunks → Option (Frame × Chunks)
read_body out body_len cs = do
  (body, cs') ← read_all body_len cs
  some (record out { body = body }, cs')

-- The byte of the type, then the body: `body.resize(body_len)`, and no `read` at length 0.
unfoldable pub read_payload : ℕ → Chunks → Option (Frame × Chunks)
unfolding read_body
read_payload payload_len cs = do
  (type_byte, cs') ← read_all 1 cs
  let out : Frame = record { kind = msg_type (of_le_bytes type_byte); body = [] }
  let body_len = payload_len - 1
  if ltb 0 body_len then read_body out body_len cs' else some (out, cs')

-- `none` is the result false.
unfoldable pub read_frame : Chunks → Option (Frame × Chunks)
read_frame cs = do
  (raw, cs') ← read_all 4 cs
  let payload_len = swap_u32 (of_le_bytes raw)
  if ltb payload_len 1 then none else read_payload payload_len cs'

-- The bytes that have left, and the counts that the next calls of `write` accept.
pub record Sink : Type 0 where
  pub sent : List ℕ
  pub accepts : List ℕ

-- The loop of `write_all`: one count for each call of `write`.
unfoldable pub write_loop : List ℕ → List ℕ → List ℕ → Bool × Sink
write_loop sent accepts [] = (true, record { sent = sent; accepts = accepts })
write_loop sent [] (b ∷ bs) = (false, record { sent = sent; accepts = [] })
write_loop sent (zero ∷ ws) (b ∷ bs) = (false, record { sent = sent; accepts = ws })
write_loop sent (suc w ∷ ws) (b ∷ bs) =
    write_loop (sent ++ take (suc w) (b ∷ bs)) ws (drop (suc w) (b ∷ bs))

unfoldable pub write_all : Sink → List ℕ → Bool × Sink
write_all s buf = write_loop s.sent s.accepts buf

unfoldable pub is_empty {ℓ} : {A : Type ℓ} → List A → Bool
is_empty [] = true
is_empty (x ∷ xs) = false

-- `if (!f.body.empty() && !write_all(...)) return false; return true`
unfoldable pub write_body : Sink → List ℕ → Bool × Sink
write_body s body = if is_empty body then (true, s) else write_all s body

unfoldable pub write_rest : Sink → Frame → Bool × Sink
write_rest s f =
    let (ok, s') = write_all s (le_bytes 1 (code f.kind)) in
    if ok then write_body s' f.body else (false, s')

unfoldable pub write_frame : Sink → Frame → Bool × Sink
write_frame s f =
    let payload_len = (1 + length f.body % 2 ^ 32) % 2 ^ 32 in
    let (ok, s') = write_all s (le_bytes 4 (swap_u32 payload_len)) in
    if ok then write_rest s' f else (false, s')
