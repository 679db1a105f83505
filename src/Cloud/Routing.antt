-- ===== src/Cloud/Routing.antt =====
-- `handle_cross_edge_req` of src/cloud/cloud_server.cpp: which Edge is asked, and what the asker gets.
use plin_cloud_edge_device_l.Common.{
  ℕ, ◌≡◌, refl, ◌⊎◌, inl, inr, Bool, true, false, ◌||◌, List, [], ◌∷◌, ◌++◌, Option, none, some,
  arith, get_elem?, Bool-cases, Option-cases,
}
use plin_cloud_edge_device_l.Common.Int.{ℤ, pos, ◌≤ℤ◌, ltb_ℤ}
use plin_cloud_edge_device_l.Double.{Double, is_nan}
use plin_cloud_edge_device_l.Bytes.{read_double}
use plin_cloud_edge_device_l.Proto.{Frame, error, not_found}
use plin_cloud_edge_device_l.RangeMap.{EndInfo, locate_end, edge_of}
use plin_cloud_edge_device_l.RangeMap.Locate.{IsTopology, Contains, locate_end-Contains}
use plin_cloud_edge_device_l.Edge.{make_fetch_resp}
use plin_cloud_edge_device_l.Cloud.{Data, Server, write, read, edge_conn}
use plin_cloud_edge_device_l.Cloud.Route.{
  forward_to_edge, reply, forwarded, route, handle_cross_edge_req,
}

-- The server after a forward to `edge` and its answer to `asker`, both written and the answer read.
abbrev pub exchanged : ℕ → ℕ → Frame → Frame → List Bool → List (Option Frame) → Server → Server
exchanged asker edge req resp ws rs s = record s {
  sent = (s.sent ++ ((edge, req) ∷ [])) ++ ((asker, resp) ∷ []);
  writes = ws;
  replies = rs;
}

forwarded-exchanged :
    (asker edge : ℕ) (req resp : Frame) (target : ℤ) (ws : List Bool) (rs : List (Option Frame))
    (s : Server)
    → edge_conn target s.edges ≡ some edge
    → s.writes ≡ true ∷ true ∷ ws
    → s.replies ≡ some resp ∷ rs
    → forwarded asker (forward_to_edge target req s) ≡ exchanged asker edge req resp ws rs s
unfolding forwarded forward_to_edge reply write read
forwarded-exchanged asker edge req resp target ws rs s c w r = ground arith

route-exchanged :
    (d : Data) (asker edge : ℕ) (req resp : Frame) (key : Double) (e : EndInfo) (ws : List Bool)
    (rs : List (Option Frame)) (s : Server)
    → locate_end d.rm key ≡ e.id
    → edge_of d.rm e.id ≡ e.edge_id
    → pos 0 ≤ℤ e.id
    → pos 0 ≤ℤ e.edge_id
    → edge_conn e.edge_id s.edges ≡ some edge
    → s.writes ≡ true ∷ true ∷ ws
    → s.replies ≡ some resp ∷ rs
    → route d asker req key s ≡ exchanged asker edge req resp ws rs s
unfolding route
route-exchanged d asker edge req resp key e ws rs s at own hi he c w r =
    let ti : ltb_ℤ e.id (pos 0) ≡ false = ground arith in
    let te : ltb_ℤ e.edge_id (pos 0) ≡ false = ground arith in
    rw (at, own, ti, te) (forwarded-exchanged asker edge req resp e.edge_id ws rs s c w r)

-- A request for a key that an End of another Edge owns is forwarded as it came to the Edge of that End,
-- and the answer of that Edge goes back as it came: two frames in this order, and no other change but
-- that the frames have been written and the answer read. This holds for a topology in order, for an End
-- that is the first under its id, with ids that are not negative, while its Edge is registered and the
-- sockets work.
pub handle_cross_edge_req-Contains :
    (d : Data) (asker edge : ℕ) (req resp : Frame) (key : Double) (i : ℕ) (e : EndInfo)
    (ws : List Bool) (rs : List (Option Frame)) (s : Server)
    → read_double req.body 8 ≡ some key
    → IsTopology d.rm
    → is_nan key ≡ false
    → get_elem? d.rm i ≡ some e
    → Contains e key
    → edge_of d.rm e.id ≡ e.edge_id
    → pos 0 ≤ℤ e.id
    → pos 0 ≤ℤ e.edge_id
    → edge_conn e.edge_id s.edges ≡ some edge
    → s.writes ≡ true ∷ true ∷ ws
    → s.replies ≡ some resp ∷ rs
    → handle_cross_edge_req d asker req s ≡ exchanged asker edge req resp ws rs s
unfolding handle_cross_edge_req
handle_cross_edge_req-Contains d asker edge req resp key i e ws rs s k t number at c own hi he conn
      w r =
    rw (k, handle_cross_edge_req)
      (route-exchanged d asker edge req resp key e ws rs s
        (locate_end-Contains d.rm key i e t number at c) own hi he conn w r)

-- The frames behind `before`: at most one to an Edge that is registered, then one to the asker.
abbrev pub Replies : ℕ → Frame → List (ℤ × ℕ) → List (ℕ × Frame) → List (ℕ × Frame) → Type 0
Replies asker req edges before after =
    ((resp : Frame) × (after ≡ before ++ ((asker, resp) ∷ [])))
    ⊎ ((target : ℤ) × (edge : ℕ) × (resp : Frame) × (edge_conn target edges ≡ some edge)
        × (after ≡ (before ++ ((edge, req) ∷ [])) ++ ((asker, resp) ∷ [])))

-- The next two writes succeed.
abbrev pub AllWritten : Server → Type 0
AllWritten s = (ws : List Bool) × (s.writes ≡ true ∷ true ∷ ws)

reply-Replies :
    (asker : ℕ) (req f : Frame) (s : Server)
    → AllWritten s
    → Replies asker req s.edges s.sent (reply asker f s).sent
unfolding reply write
reply-Replies asker req f s (ws, w) = inl (f, ground arith)

forwarded-Replies :
    (asker : ℕ) (req : Frame) (target : ℤ) (s : Server) (rs : List (Option Frame))
    → AllWritten s
    → s.replies ≡ rs
    → Replies asker req s.edges s.sent (forwarded asker (forward_to_edge target req s)).sent
unfolding forwarded forward_to_edge reply write read
forwarded-Replies asker req target s [] (ws, w) r = elim (Option-cases (edge_conn target s.edges)) [
  | inl c ↦ inl (make_fetch_resp error 0, ground arith)
  | inr (edge, c) ↦ inr (target, edge, make_fetch_resp error 0, c, ground arith)
]
forwarded-Replies asker req target s (none ∷ rs) (ws, w) r =
    elim (Option-cases (edge_conn target s.edges)) [
      | inl c ↦ inl (make_fetch_resp error 0, ground arith)
      | inr (edge, c) ↦ inr (target, edge, make_fetch_resp error 0, c, ground arith)
    ]
forwarded-Replies asker req target s (some resp ∷ rs) (ws, w) r =
    elim (Option-cases (edge_conn target s.edges)) [
      | inl c ↦ inl (make_fetch_resp error 0, ground arith)
      | inr (edge, c) ↦ inr (target, edge, resp, c, ground arith)
    ]

route-Replies :
    (d : Data) (asker : ℕ) (req : Frame) (key : Double) (s : Server)
    → AllWritten s
    → Replies asker req s.edges s.sent (route d asker req key s).sent
unfolding route
route-Replies d asker req key s w =
    elim (Bool-cases
      (ltb_ℤ (locate_end d.rm key) (pos 0) || ltb_ℤ (edge_of d.rm (locate_end d.rm key)) (pos 0))) [
        | inl t ↦ rw t (reply-Replies asker req (make_fetch_resp not_found 0) s w)
        | inr t ↦
            rw t
              (forwarded-Replies asker req (edge_of d.rm (locate_end d.rm key)) s s.replies w refl)
      ]

-- The request names a key that an End owns, and the Edge of that End is registered.
abbrev pub IsForwarded : Data → Frame → Server → Type 0
IsForwarded d req s =
    (key : Double) × (edge : ℕ) × (read_double req.body 8 ≡ some key)
    × (ltb_ℤ (locate_end d.rm key) (pos 0) ≡ false)
    × (ltb_ℤ (edge_of d.rm (locate_end d.rm key)) (pos 0) ≡ false)
    × (edge_conn (edge_of d.rm (locate_end d.rm key)) s.edges ≡ some edge)

-- What is sent after the result of the next write: where it fails, an answer with the status of an error.
abbrev pub Answered : Bool → ℕ → Frame → List (ℤ × ℕ) → List (ℕ × Frame) → List (ℕ × Frame) → Type 0
Answered true asker req edges before after = Replies asker req edges before after
Answered false asker req edges before after =
    after ≡ before ++ ((asker, make_fetch_resp error 0) ∷ [])

forward_fails :
    (asker : ℕ) (req : Frame) (target : ℤ) (edge : ℕ) (s : Server) (ws : List Bool)
    → s.writes ≡ false ∷ true ∷ ws
    → edge_conn target s.edges ≡ some edge
    → (forwarded asker (forward_to_edge target req s)).sent
      ≡ s.sent ++ ((asker, make_fetch_resp error 0) ∷ [])
unfolding forwarded forward_to_edge reply write
forward_fails asker req target edge s ws w c = ground arith

-- Every request gets exactly one answer. While the next two writes succeed, this holds whether its body is
-- too short, no End owns its key, the Edge is not registered or does not answer, or it is forwarded and
-- answered; before the answer the request itself is sent at most once, and only to the socket of a
-- registered Edge. Where the write to a registered Edge fails and that of the answer succeeds, the answer
-- is one with the status of an error, and nothing else is sent.
pub handle_cross_edge_req-Replies :
    (d : Data) (asker : ℕ) (req : Frame) (s : Server) (first : Bool) (ws : List Bool)
    → s.writes ≡ first ∷ true ∷ ws
    → (first ≡ true) ⊎ IsForwarded d req s
    → Answered first asker req s.edges s.sent (handle_cross_edge_req d asker req s).sent
unfolding handle_cross_edge_req
handle_cross_edge_req-Replies d asker req s true ws w c =
    elim (Option-cases (read_double req.body 8)) [
      | inl e ↦
          rw (e, handle_cross_edge_req)
            (reply-Replies asker req (make_fetch_resp error 0) s (ws, w))
      | inr (key, e) ↦ rw (e, handle_cross_edge_req) (route-Replies d asker req key s (ws, w))
    ]
handle_cross_edge_req-Replies d asker req s false ws w (inl c) = cc c
handle_cross_edge_req-Replies d asker req s false ws w (inr (key, edge, k, t, e, c)) =
    rw (k, handle_cross_edge_req)
      (unfold route in
        rw (t, e) (forward_fails asker req (edge_of d.rm (locate_end d.rm key)) edge s ws w c))
