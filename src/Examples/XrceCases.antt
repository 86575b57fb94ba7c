-- ===== src/Examples/XrceCases.antt =====
-- Ten bytes through a stream buffer of sixteen.
use powersuit.Base.{
  ℕ, ◌+◌, ◌-◌, ◌≤◌, ◌<◌, ◌≡◌, refl, arith, min, ◌⊎◌, false, List, [], ◌∷◌, ◌++◌, length, take, drop,
  map, All, ltb,
}
use powersuit.Gateway.{frame_of}
use powersuit.Xrce.{Stream, Uros, EdgeNode, uros_write, poll_outbound, xrce_rx_all}
use powersuit.Xrce.Delivery.{Laws, all_carried, IsChunk, AllTaken, uros_write_bytes, slices_arrive}

abbrev bytes : List ℕ
bytes = 126 ∷ 1 ∷ 2 ∷ 3 ∷ 4 ∷ 5 ∷ 6 ∷ 7 ∷ 8 ∷ 126 ∷ []

-- A buffer is its room and its bytes.
abbrev sixteen : Stream (ℕ × List ℕ)
sixteen = record {
  send = λ s xs.
      ((s.0 - min (length xs) s.0, s.1 ++ take (min (length xs) s.0) xs), min (length xs) s.0);
  read = λ s n. ((s.0 + length (take n s.1), drop n s.1), take n s.1);
  reset = λ s. (s.0 + length s.1, []);
}

abbrev sixteen_laws : Laws sixteen
sixteen_laws = record {
  view = λ s. s.1;
  room = λ s. s.0;
  send_count = λ s xs. refl;
  send_view = λ s xs. refl;
  send_room = λ s xs. refl;
}

abbrev node : EdgeNode
node = record { id = 5; bus = 1 }

abbrev client : Uros (ℕ × List ℕ)
client = record { node_id = 5; rx = (16, []); rx_overruns = 0 }

slices_arrive_example :
    let u' = xrce_rx_all sixteen client (map frame_of (poll_outbound ((node, bytes) ∷ []))) in
    (u'.rx.1 ≡ bytes) × (u'.rx_overruns ≡ 0)
slices_arrive_example = slices_arrive sixteen sixteen_laws client node bytes (omega arith)

-- The bus takes the first frame and refuses the second.
uros_write_bytes_example :
    let (frames, written, err) = uros_write 5 (λ i. ltb i 1) bytes in
    (all_carried frames ≡ take written bytes)
    × (written ≤ 10)
    × All IsChunk frames
    × AllTaken (length frames) (λ i. ltb i 1)
    × (((written ≡ 10) × (err ≡ 0))
        ⊎ ((written < 10) × (ltb (length frames) 1 ≡ false) × (err ≡ 1)))
uros_write_bytes_example = uros_write_bytes 5 (λ i. ltb i 1) bytes
