-- ===== src/Router.antt =====
-- firmware/components/ps_router: the hub's routing decision table. A port set is the mask of
-- `uint8_t`, with the bit of port p at 2^p.
pub mod Policy
use powersuit.Base.{
  ℕ, ◌-◌, ◌^◌, Bool, true, false, ◌&&◌, Option, none, some, bit_and, bit_or, if◌then◌else◌, ◌==◌,
  ltb,
}
use powersuit.CanId.{
  CanId, unpack, cls_safety, cls_control, cls_telem, cls_xrce, cls_audio, cls_mgmt, node_broadcast,
  node_arm_r, node_arm_l, node_leg_r, node_leg_l, node_flight, node_helmet, node_hub, node_orch,
}

-- `PS_PORT_*`
abbrev pub port_can1 : ℕ
port_can1 = 0

abbrev pub port_can2 : ℕ
port_can2 = 1

abbrev pub port_spi : ℕ
port_spi = 2

abbrev pub port_local : ℕ
port_local = 3

-- `PS_PORT_BIT`
abbrev pub port_bit : ℕ → ℕ
port_bit p = 2 ^ p

-- `PS_ROUTER_ALL_PORTS`
abbrev pub all_ports : ℕ
all_ports =
    bit_or (bit_or (bit_or (port_bit port_can1) (port_bit port_can2)) (port_bit port_spi))
      (port_bit port_local)

-- `ps_router_bus_of_node`; `none` is the -1.
unfoldable pub bus_of_node : ℕ → Option ℕ
bus_of_node node =
    if node == node_arm_r
    then some port_can1
    else if node == node_arm_l
    then some port_can1
    else if node == node_helmet
    then some port_can1
    else if node == node_leg_r
    then some port_can2
    else if node == node_leg_l
    then some port_can2
    else if node == node_flight
    then some port_can2
    else none

-- `bus_bit_of`
unfoldable pub bus_bit_of : ℕ → ℕ
unfolding bus_of_node
bus_bit_of dst = elim (bus_of_node dst) [ none ↦ 0 | some bus ↦ port_bit bus ]

-- The `switch` of `ps_router_route`, before the origin's bit is taken off.
unfoldable pub class_mask : ℕ → CanId → ℕ
unfolding bus_bit_of
class_mask origin_port f =
    let from_spi = origin_port == port_spi in
    if f.cls == cls_safety
    then all_ports
    else if f.cls == cls_control
    then (if from_spi
        then (if f.dst == node_hub then port_bit port_local else bus_bit_of f.dst)
        else (if f.dst == node_orch then port_bit port_spi else 0))
    else if f.cls == cls_telem
    then (if from_spi
        then (if f.dst == node_hub then port_bit port_local else bus_bit_of f.dst)
        else (if f.dst == node_hub
            then bit_or (port_bit port_spi) (port_bit port_local)
            else port_bit port_spi))
    else if f.cls == cls_xrce
    then (if from_spi
        then (if f.dst == node_hub then port_bit port_local else bus_bit_of f.dst)
        else (if f.dst == node_hub
            then bit_or (port_bit port_spi) (port_bit port_local)
            else port_bit port_spi))
    else if f.cls == cls_audio
    then (if origin_port == port_can1 && f.dst == node_orch
        then port_bit port_spi
        else if from_spi && f.dst == node_helmet
        then port_bit port_can1
        else 0)
    else if f.cls == cls_mgmt
    then (if from_spi
        then bit_or (bit_or (port_bit port_can1) (port_bit port_can2)) (port_bit port_local)
        else let up = bit_or (port_bit port_spi) (port_bit port_local) in
          if f.dst == node_broadcast
          then bit_or up (bit_or (port_bit port_can1) (port_bit port_can2))
          else up)
    else 0

-- `ps_router_route`; `~bit` as a byte is 255 less the bit.
unfoldable pub route : ℕ → ℕ → ℕ
unfolding class_mask
route origin_port id =
    if ltb port_local origin_port
    then 0
    else bit_and (class_mask origin_port (unpack id)) (255 - port_bit origin_port)
