-- ===== src/Router/Policy.antt =====
-- ps_router.c against the routing policy of docs/network-map.md, section 5, stated port by port.
use powersuit.Base.{
  ℕ, zero, suc, ◌≤◌, ◌<◌, ◌≡◌, ◌⊎◌, arith, Bool, true, false, not, ◌&&◌, ◌||◌, ◌==◌, test_bit,
}
use powersuit.CanId.{
  CanId, unpack, cls_safety, cls_control, cls_telem, cls_xrce, cls_audio, cls_mgmt, node_broadcast,
  node_arm_r, node_arm_l, node_leg_r, node_leg_l, node_flight, node_helmet, node_hub, node_orch,
}
use powersuit.Router.{port_can1, port_can2, port_spi, port_local, route}

pub data Port : Type 0 where
  can1 can2 spi hub : Port

abbrev pub index : Port → ℕ
index can1 = port_can1
index can2 = port_can2
index spi = port_spi
index hub = port_local

abbrev pub on_bus1 : ℕ → Bool
on_bus1 n = n == node_arm_r || n == node_arm_l || n == node_helmet

abbrev pub on_bus2 : ℕ → Bool
on_bus2 n = n == node_leg_r || n == node_leg_l || n == node_flight

abbrev is_spi : Port → Bool
is_spi spi = true
is_spi _ = false

abbrev is_can1 : Port → Bool
is_can1 can1 = true
is_can1 _ = false

-- Classes that go up to the orchestrator, and down to one node.
abbrev is_addressed : ℕ → Bool
is_addressed cls = cls == cls_control || cls == cls_telem || cls == cls_xrce

abbrev is_stream : ℕ → Bool
is_stream cls = cls == cls_telem || cls == cls_xrce

-- Who gets a frame with the fields `f` that came in on the port `o`, the port `o` itself aside.
abbrev pub gets : Port → CanId → Port → Bool
gets o f can1 =
    f.cls == cls_safety
    || (is_spi o && is_addressed f.cls && on_bus1 f.dst)
    || (is_spi o && f.cls == cls_audio && f.dst == node_helmet)
    || (f.cls == cls_mgmt && (is_spi o || f.dst == node_broadcast))
gets o f can2 =
    f.cls == cls_safety
    || (is_spi o && is_addressed f.cls && on_bus2 f.dst)
    || (f.cls == cls_mgmt && (is_spi o || f.dst == node_broadcast))
gets o f spi =
    f.cls == cls_safety
    || is_stream f.cls
    || (f.cls == cls_control && f.dst == node_orch)
    || (is_can1 o && f.cls == cls_audio && f.dst == node_orch)
    || f.cls == cls_mgmt
gets o f hub =
    f.cls == cls_safety
    || f.cls == cls_mgmt
    || (f.dst == node_hub && (is_stream f.cls || (is_spi o && f.cls == cls_control)))

abbrev pub other : Port → Port → Bool
other o p = not (index o == index p)

-- A port is in the set that `ps_router_route` returns exactly when the policy names it and it is
-- not the port that the frame came in on.
pub route-gets :
    (o p : Port) (id : ℕ)
    → test_bit (route (index o) id) (index p) ≡ (other o p && gets o (unpack id) p)
unfolding route
route-gets can1 can1 id = ground arith
route-gets can1 can2 id = ground arith
route-gets can1 spi id = ground arith
route-gets can1 hub id = ground arith
route-gets can2 can1 id = ground arith
route-gets can2 can2 id = ground arith
route-gets can2 spi id = ground arith
route-gets can2 hub id = ground arith
route-gets spi can1 id = ground arith
route-gets spi can2 id = ground arith
route-gets spi spi id = ground arith
route-gets spi hub id = ground arith
route-gets hub can1 id = ground arith
route-gets hub can2 id = ground arith
route-gets hub spi id = ground arith
route-gets hub hub id = ground arith

abbrev pub other_bus : Port → Port
other_bus can1 = can2
other_bus _ = can1

-- A frame from one CAN bus reaches the other only as SAFETY or as a MGMT broadcast; no command,
-- telemetry, stream or audio crosses over.
pub route_isolates :
    (o : Port) (id : ℕ)
    → (o ≡ can1) ⊎ (o ≡ can2)
    → test_bit (route (index o) id) (index (other_bus o)) ≡ true
    → ((unpack id).cls ≡ cls_safety)
      ⊎ (((unpack id).cls ≡ cls_mgmt) × ((unpack id).dst ≡ node_broadcast))
route_isolates can1 id b h = ground (arith, route-gets can1 can2 id)
route_isolates can2 id b h = ground (arith, route-gets can2 can1 id)
route_isolates spi id b h = ground arith
route_isolates hub id b h = ground arith

-- A command that reaches a CAN bus came from the orchestrator, is sent out on one bus only, and
-- that is the bus of the node that it names.
pub route_command :
    (o : Port) (id : ℕ)
    → (unpack id).cls ≡ cls_control
    → (test_bit (route (index o) id) port_can1 ≡ true
        → (o ≡ spi)
          × (on_bus1 (unpack id).dst ≡ true)
          × (test_bit (route (index o) id) port_can2 ≡ false))
      × (test_bit (route (index o) id) port_can2 ≡ true
          → (o ≡ spi)
            × (on_bus2 (unpack id).dst ≡ true)
            × (test_bit (route (index o) id) port_can1 ≡ false))
route_command can1 id c = ground (arith, route-gets can1 can1 id, route-gets can1 can2 id)
route_command can2 id c = ground (arith, route-gets can2 can1 id, route-gets can2 can2 id)
route_command spi id c = ground (arith, route-gets spi can1 id, route-gets spi can2 id)
route_command hub id c = ground (arith, route-gets hub can1 id, route-gets hub can2 id)

-- An origin that is no port gets an empty set, and no set names a port beyond the four.
pub route_bounds : (o id : ℕ) → (4 ≤ o → route o id ≡ 0) × (route o id < 16)
unfolding route
route_bounds zero id = ground arith
route_bounds (suc zero) id = ground arith
route_bounds (suc (suc zero)) id = ground arith
route_bounds (suc (suc (suc zero))) id = ground arith
route_bounds (suc (suc (suc (suc o)))) id = ground arith
