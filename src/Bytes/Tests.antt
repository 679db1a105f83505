-- ===== src/Bytes/Tests.antt =====
-- Fields in a small buffer.
use plin_cloud_edge_device_l.Common.{◌≡◌, [], ◌∷◌, ◌++◌, some, arith}
use plin_cloud_edge_device_l.Bytes.{append_u32, append_double, read_u32, read_double}
use plin_cloud_edge_device_l.Bytes.Fields.{fields_back}

fields_back_example :
    (read_u32 (append_u32 (9 ∷ 8 ∷ []) 70000 ++ (7 ∷ [])) 2 ≡ some 70000)
    × (read_double (append_double (9 ∷ 8 ∷ []) 0x3ff0_0000_0000_0000 ++ (7 ∷ [])) 2
        ≡ some 0x3ff0_0000_0000_0000)
fields_back_example =
    fields_back (9 ∷ 8 ∷ []) (7 ∷ []) 70000 0x3ff0_0000_0000_0000 (omega arith) (omega arith)
