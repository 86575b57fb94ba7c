-- ===== src/Xrce.antt =====
-- The byte stream of micro-ROS on the buses: firmware/components/ps_uros/src/ps_uros_transport_can.c at a node, and
-- orchestrator/ros2_ws/src/suit_canspi_bridge/src/xrce_demux.cpp at the orchestrator. The stream buffer of the real-time
-- kernel is a parameter; what a terminal has is an argument, as is what `ps_can_send` answers.
pub mod Delivery
use powersuit.Base.{
  ℕ, zero, suc, ◌+◌, ◌-◌, Bool, true, false, not, Option, none, some, List, [], ◌∷◌, ◌++◌, length,
  take, drop, replicate, ltb, ◌==◌, if◌then◌else◌, u8, u32,
}
use powersuit.CanId.{
  CanFrame, pack, cls_xrce, node_orch, node_arm_r, node_arm_l, node_leg_r, node_leg_l, node_flight,
  node_helmet,
}
use powersuit.SpiFrame.{Record}

abbrev pub t_xrce_stream : ℕ
t_xrce_stream = 0x30

-- The stream buffer, by the calls that the code makes: a send says how many bytes it took, and a read gives at most as many bytes
-- as are asked for.
pub record Stream (S : Type 0) : Type 0 where
  pub send : S → List ℕ → S × ℕ
  pub read : S → ℕ → S × List ℕ
  pub reset : S → S

-- The variable `t`, less its handle.
pub record Uros (S : Type 0) : Type 0 where
  pub node_id : ℕ
  pub rx : S
  pub rx_overruns : ℕ

module _ {S : Type 0} (k : Stream S) where
  -- `xrce_rx`
  unfoldable pub xrce_rx : Uros S → CanFrame → Uros S
  xrce_rx u f =
      let (s, n) = k.send u.rx (take f.dlc f.payload) in
      if f.dlc == 0 then u else record u {
        rx = s;
        rx_overruns = if not (n == f.dlc) then u32 (u.rx_overruns + 1) else u.rx_overruns;
      }

  -- The frames of the class come one after the other.
  unfoldable pub xrce_rx_all : Uros S → List CanFrame → Uros S
  unfolding xrce_rx
  xrce_rx_all u [] = u
  xrce_rx_all u (f ∷ fs) = xrce_rx_all (xrce_rx u f) fs

  -- `ps_uros_open`
  unfoldable pub uros_open : Uros S → Uros S
  uros_open u = record u { rx = k.reset u.rx }

  -- `ps_uros_read`: the bytes, and the error byte.
  unfoldable pub uros_read : Uros S → ℕ → Uros S × List ℕ × ℕ
  uros_read u len =
      let (s, got) = k.read u.rx len in
      (record u { rx = s }, got, if ltb 0 (length got) then 0 else 1)

-- A chunk of at most eight bytes, with zeros behind it.
abbrev pub zero_padded : List ℕ → List ℕ
zero_padded chunk = chunk ++ replicate (8 - length chunk) 0

abbrev pub stream_frame : ℕ → List ℕ → CanFrame
stream_frame node_id chunk = record {
  id = pack cls_xrce node_id node_orch t_xrce_stream 0;
  dlc = length chunk;
  payload = zero_padded chunk;
}

-- The loop of `ps_uros_write` on the bytes that are left, with `n` rounds at most: the frames that are sent and the number of
-- their bytes. `sends` is what `ps_can_send` answers for each frame.
unfoldable pub write_loop : ℕ → ℕ → (ℕ → Bool) → List ℕ → List CanFrame × ℕ
write_loop node_id zero sends buf = ([], 0)
write_loop node_id (suc n) sends [] = ([], 0)
write_loop node_id (suc n) sends (b ∷ bs) =
    let buf = b ∷ bs in
    let (frames, written) = write_loop node_id n (λ i. sends (suc i)) (drop 8 buf) in
    if not (sends 0)
    then ([], 0)
    else (stream_frame node_id (take 8 buf) ∷ frames, length (take 8 buf) + written)

-- `ps_uros_write`: with the error byte. A round takes a byte at least, so as many rounds as bytes are enough.
unfoldable pub uros_write : ℕ → (ℕ → Bool) → List ℕ → List CanFrame × ℕ × ℕ
unfolding write_loop
uros_write node_id sends buf =
    let (frames, written) = write_loop node_id (length buf) sends buf in
    (frames, written, if written == length buf then 0 else 1)

-- `EdgeNode`, less its name, and `kEdgeNodes`.
pub record EdgeNode : Type 0 where
  pub id : ℕ
  pub bus : ℕ

abbrev edge : ℕ → ℕ → EdgeNode
edge id bus = record { id = id; bus = bus }

abbrev pub edge_nodes : List EdgeNode
edge_nodes =
    edge node_arm_r 0
    ∷ edge node_arm_l 0
    ∷ edge node_leg_r 1
    ∷ edge node_leg_l 1
    ∷ edge node_flight 1
    ∷ edge node_helmet 0
    ∷ []

-- The loop of `index_of`, from index `i` on; `none` is the -1.
unfoldable pub index_from : ℕ → List EdgeNode → ℕ → Option ℕ
index_from i [] node_id = none
index_from i (n ∷ ns) node_id =
    let rest = index_from (i + 1) ns node_id in if n.id == node_id then some i else rest

-- `XrceDemux::index_of`
unfoldable pub index_of : ℕ → Option ℕ
unfolding index_from
index_of node_id = index_from 0 edge_nodes node_id

abbrev pub stream_record : EdgeNode → List ℕ → Record
stream_record node chunk = record {
  id = pack cls_xrce node_orch node.id t_xrce_stream 0;
  bus = node.bus;
  dlc = length chunk;
  ts_ms = 0;
  payload = zero_padded chunk;
}

-- The inner loop of `poll_outbound`, with `n` rounds at most, on the bytes that are left.
unfoldable pub slice_loop : EdgeNode → ℕ → List ℕ → List Record
slice_loop node zero bytes = []
slice_loop node (suc n) [] = []
slice_loop node (suc n) (b ∷ bs) =
    stream_record node (take 8 (b ∷ bs)) ∷ slice_loop node n (drop 8 (b ∷ bs))

-- `XrceDemux::poll_outbound`, with what each terminal gave: at most 256 bytes, or nothing.
unfoldable pub poll_outbound : List (EdgeNode × List ℕ) → List Record
unfolding slice_loop
poll_outbound [] = []
poll_outbound ((node, bytes) ∷ rest) = slice_loop node (length bytes) bytes ++ poll_outbound rest
