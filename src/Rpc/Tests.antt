-- ===== src/Rpc/Tests.antt =====
-- A heartbeat on a socket that takes and gives its bytes in pieces.
use plin_cloud_edge_device_l.Common.{inr, ◌≡◌, refl, true, [], ◌∷◌, ◌++◌, some, none, arith, drop}
use plin_cloud_edge_device_l.Bytes.{le_bytes, swap_u32}
use plin_cloud_edge_device_l.Proto.{Frame, heartbeat, code, msg_type}
use plin_cloud_edge_device_l.Rpc.{
  Chunks, read_all, read_frame, Sink, write_loop, write_all, is_empty, write_body, write_rest,
  write_frame,
}
use plin_cloud_edge_device_l.Rpc.Stream.{
  bytes, IsLive, Reads, read_all-Reads, Writes, write_all-Writes,
}
use plin_cloud_edge_device_l.Rpc.RoundTrip.{IsFrame, read_frame-write_frame, read_frame_fails}

abbrev beat : Frame
beat = record { kind = heartbeat; body = 7 ∷ 0 ∷ 0 ∷ 0 ∷ [] }

-- Five bytes of other traffic have left; the next calls of `write` take 3, 100 and 100 bytes.
abbrev sink : Sink
sink = record { sent = 1 ∷ 2 ∷ 3 ∷ 4 ∷ 5 ∷ []; accepts = 3 ∷ 100 ∷ 100 ∷ 100 ∷ [] }

-- The nine bytes in three chunks, the last with a byte of the next frame.
abbrev chunks : Chunks
chunks = (0 ∷ 0 ∷ []) ∷ (0 ∷ 5 ∷ 9 ∷ 7 ∷ []) ∷ (0 ∷ 0 ∷ 0 ∷ 44 ∷ []) ∷ []

beat-IsFrame : IsFrame beat
unfolding msg_type code
beat-IsFrame = ((refl, omega arith), omega arith)

beat_written : (write_frame sink beat).0 ≡ true
unfolding write_frame write_rest write_body write_all write_loop is_empty le_bytes swap_u32 code
beat_written = refl

chunks_of_beat : bytes chunks ≡ drop 5 (write_frame sink beat).1.sent ++ (44 ∷ [])
unfolding write_frame write_rest write_body write_all write_loop is_empty le_bytes swap_u32 code
chunks_of_beat = refl

read_frame-write_frame_example :
    (cs' : Chunks) × (read_frame chunks ≡ some (beat, cs')) × (bytes cs' ≡ 44 ∷ []) × IsLive cs'
read_frame-write_frame_example =
    read_frame-write_frame sink beat chunks (44 ∷ []) beat-IsFrame beat_written tt chunks_of_beat

-- The length announces a type byte and a body of four bytes, of which one is there.
read_frame_fails_example : read_frame ((0 ∷ 0 ∷ []) ∷ (0 ∷ 5 ∷ 9 ∷ 7 ∷ []) ∷ []) ≡ none
read_frame_fails_example =
    read_frame_fails ((0 ∷ 0 ∷ []) ∷ (0 ∷ 5 ∷ 9 ∷ 7 ∷ []) ∷ []) tt
      (inr (5, 9 ∷ 7 ∷ [], unfold le_bytes swap_u32 in refl, omega arith, inr (omega arith)))

read_all-Reads_example : Reads 4 chunks (read_all 4 chunks)
read_all-Reads_example = read_all-Reads 4 chunks tt (omega arith)

write_all-Writes_example :
    Writes sink.sent (8 ∷ 9 ∷ 10 ∷ 11 ∷ []) (write_all sink (8 ∷ 9 ∷ 10 ∷ 11 ∷ []))
write_all-Writes_example = write_all-Writes sink (8 ∷ 9 ∷ 10 ∷ 11 ∷ [])
