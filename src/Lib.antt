-- ===== src/Lib.antt =====
-- A model of PLIN, a learned index over three tiers: Ends, the Edges above them, and a Cloud.
--
-- An End holds the rows of one range of keys and answers lookups in stages: its own tree, a cache of hot
-- keys, its Edge (by a remote read of a snapshot, or by a request), and the Cloud, which forwards the
-- request to the Edge of the End that owns the key. An Edge serves its Ends from a learned index, pushes
-- the parameters of that index and a snapshot to them, and passes on what the Cloud sends. The Cloud
-- routes requests between Edges and sends hot keys to the Ends that own them.
--
-- Files, with the code that each models (paths from the root of the repository):
--   Common: lists, options, integers and Boolean tests that the others share.
--   Double: the order of IEEE 754 doubles on their bit patterns.
--   RangeMap: src/common/range_map.h and range_map.cpp (`locate_end`, `edge_of`, `siblings_of`,
--     `same_edge`).
--   Bytes: the `append_` and `read_` helpers of the three programs.
--   Proto: src/common/proto.h and the frame of src/common/rpc.h.
--   Rpc: src/common/rpc.cpp (`read_all`, `write_all`, `read_frame`, `write_frame`).
--   Plin: src/core/index/serialize.h, `Param` and `local_model` of src/core/index/cache_model.h, and
--     src/end/parent_plin_cache.h.
--   PlinIndex: the learned index, src/core/index/plin_index.h (`find`, `find_through_net`,
--     `find_in_buffer_net`, `upsert`, `remove`, `upsert_node`), leaf_node.h (the constructor, `find`, `upsert`, `remove`),
--     inner_node.h (the constructor, `find_leaf_node`, `upsert_node`, `get_leftmost_leaf`), and `InnerSlot`
--     and `model_correction` of utils.h.
--   Btree: the B+ tree of the buffers and overflow blocks, src/core/index/b_plus.h (`find`, `upsert`,
--     `range_query`, `get_data`, `delete_entry`). Its children: Lookup and Append are the records in order,
--     Bounded, Sorted and Split the pages between their bounds, Upsert the insertion, Deletion and Merged
--     the deletion.
--   Snapshot: src/common/rdma_snapshot.h, `build_rdma_snapshot` of src/edge/edge_server.cpp and
--     `rdma_snapshot_lookup` of src/end/end_node.cpp.
--   Store: src/end/hot_cache.h and `load_range` of src/end/end_node.cpp over the maps of libcuckoo and tlx.
--   End: src/end/end_node.cpp (the control frames, the exchanges with the Edge, `lookup`, `run_benchmark`).
--   Edge: src/edge/edge_server.cpp (the registry of Ends, `handle_end`, `cloud_receiver_loop`).
--   Cloud: src/cloud/cloud_server.cpp (`handle_connection`, `handle_cross_edge_req`, `send_hot_update`,
--     `hot_update_loop`, `build_hot_positions_by_end`).
--
-- State. A program's shared state is a record, and a handler is a function from it to the new one. What
-- comes from outside is in the state as a list: the frames that arrive, the chunks in which the kernel
-- delivers bytes, the results of writes. Where the code takes a lock, the step under the lock is one
-- application; interleavings of threads are the orders in which handlers are applied.
--
-- Numbers. A number of C++ is a natural number, with `% 2 ^ w` where the code can wrap around; an `int` is
-- an integer. A double is its bit pattern; its arithmetic is a parameter (`Arith` of Plin/Predict).
--
-- Fuel. `locate_loop` has the number of Ends and one more, which is enough, since the interval shrinks in
-- each round; `read_loop` has the number of bytes, since each call reads one at least. The loops of
-- `wait_initial_plin_push` and `drain_edge_control_frames` end at a deadline, and the number of their
-- rounds is an argument.
--
-- In the index the loops over the slots of a node have the number of its slots, and the way down has the
-- level of the index as its fuel. The leaves are a list in the order of their chain, and the inner nodes a
-- list, so that a pointer is a place in it. A loop that waits for a lock that another thread holds has no
-- result. A leaf has less than 2 ^ 28 blocks, so that the number of a slot fits into 32 bits.
--
-- A page of the B+ tree is the list of its records, and a tree of a given height is a page of pages, so
-- that the recursion ends with the height. The links between the leaves are their order in the tree.
--
-- The index as a whole (PlinIndex/Returns, Ready and Refined) is seen as a map from keys to payloads, while
-- no other thread has a lock and the splits that upserts ask for have not begun: for keys that are no NaN,
-- -0 or key of a free slot, and payloads other than 0.
--
-- The learned index uses the B+ tree through an interface (`OverflowTree` of PlinIndex/Leaf): the trees
-- with their pages in order and none of them full. PlinIndex/Btrees fills it with the operations of Btree,
-- which have no result where they leave no such tree, and with the theorems on them. An Edge serves its
-- Ends from a learned index of PlinIndex; a wait for a lock of it has no result.
--
-- Parameters. Memory that an Edge registers for remote reads answers each read within it (`Registered` of
-- Snapshot/Served). The maps of libcuckoo and tlx are interfaces with their documented laws (Store).
-- `std::sort` is an argument, called with the comparison of the code, that keeps to the entries of its list
-- (`Keeps` of Cloud/Ranking/Bounds). The predictor of the Cloud is an argument.
--
-- Not modelled: sockets and the verbs library, which are the operating system's; of the learned index the
-- bulk load, the split of a leaf and the rebuilding of the inner nodes, the range queries over leaves, the
-- segmentation of src/core/index/piecewise_linear_model.h, and the persistent memory; the files of data and
-- workloads; command lines; legacy, third_party and libcuckoo.
pub mod Common
pub mod Double
pub mod RangeMap
pub mod Bytes
pub mod Proto
pub mod Rpc
pub mod Plin
pub mod Snapshot
pub mod Store
pub mod End
pub mod Edge
pub mod Cloud
pub mod PlinIndex
pub mod Btree
