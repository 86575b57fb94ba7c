-- ===== src/CanLink.antt =====
-- firmware/components/ps_can/src/ps_can.c: the state of the link, its recovery from bus-off, and the filter of
-- the receive task. The transmit slots are in CanTx; the class callbacks and the driver's calls are not modelled; what
-- `twai_node_recover` answers is an argument.
use powersuit.Base.{
  ℕ, ◌+◌, ◌*◌, ◌≤◌, ◌<◌, ◌≡◌, arith, Bool, true, false, ◌||◌, Option, none, some, ltb, leb, ◌==◌,
  if◌then◌else◌, u32,
}
use powersuit.CanId.{id_dst, node_broadcast}

abbrev pub recover_min_ms : ℕ
recover_min_ms = 100

abbrev pub recover_max_ms : ℕ
recover_max_ms = 1600

-- `PS_CAN_STATE_*`
abbrev pub link_running : ℕ
link_running = 0

abbrev pub link_bus_off : ℕ
link_bus_off = 2

abbrev pub link_recovering : ℕ
link_recovering = 3

-- The link's fields of `struct ps_can_ctx`; `pending_state` is `none` for the -1.
pub record Link : Type 0 where
  pub node_id : ℕ
  pub link_state : ℕ
  pub pending_state : Option ℕ
  pub recover_backoff_ms : ℕ
  pub recover_at_ms : ℕ
  pub recoveries : ℕ

-- `on_state_change`, of a state that is mapped already.
unfoldable pub on_state_change : Link → ℕ → Link
on_state_change l mapped = record l { link_state = mapped; pending_state = some mapped }

-- The first part of `service_link`: a state that is pending is reported, and given as the second part.
unfoldable pub report_state : Link → Link × Option ℕ
report_state l = elim l.pending_state [
  | none ↦ (l, none)
  | some p ↦ (
    record l {
      pending_state = none;
      recover_backoff_ms = if p == link_running then recover_min_ms else l.recover_backoff_ms;
    },
    some p,
  )
]

-- The recovery part of `service_link`; the answer says whether `twai_node_recover` was called.
unfoldable pub try_recover : Link → ℕ → Bool → Link × Bool
try_recover l now recovered =
    if l.link_state == link_bus_off
    then (if leb l.recover_at_ms now
        then (
          record l {
            link_state = if recovered then link_recovering else l.link_state;
            recoveries = if recovered then u32 (l.recoveries + 1) else l.recoveries;
            recover_at_ms = now + l.recover_backoff_ms;
            recover_backoff_ms =
                if ltb recover_max_ms (l.recover_backoff_ms * 2)
                then recover_max_ms
                else l.recover_backoff_ms * 2;
          },
          true,
        )
        else (l, false))
    else (l, false)

-- `service_link`: the state that is reported, and whether a recovery was tried.
unfoldable pub service_link : Link → ℕ → Bool → Link × Option ℕ × Bool
unfolding report_state try_recover
service_link l now recovered =
    let (l1, reported) = report_state l in
    let (l2, tried) = try_recover l1 now recovered in (l2, reported, tried)

-- The filter of `rx_task`.
unfoldable pub accepts : Link → ℕ → Bool
accepts l id = l.node_id == 0 || id_dst id == l.node_id || id_dst id == node_broadcast

abbrev pub BackoffInRange : Link → Type 0
BackoffInRange l = (recover_min_ms ≤ l.recover_backoff_ms) × (l.recover_backoff_ms ≤ recover_max_ms)

-- A round of the receive task keeps the backoff between 100 and 1600 ms. It tries to recover only a link that is
-- off the bus and whose time has come, and then not again for at least 100 ms, whatever is reported or changes
-- in between: a round at any time before that tries nothing.
pub service_link_backoff :
    (l : Link) (now later state : ℕ) (recovered again : Bool)
    → BackoffInRange l
    → let (l', _, tried) = service_link l now recovered in
      BackoffInRange l'
      × (tried ≡ true
          → (l.link_state ≡ link_bus_off)
            × (l.recover_at_ms ≤ now)
            × (now + 100 ≤ l'.recover_at_ms))
      × (tried ≡ true → later < now + 100 → (service_link l' later again).2 ≡ false)
      × (tried ≡ true
          → later < now + 100
          → (service_link (on_state_change l' state) later again).2 ≡ false)
unfolding service_link on_state_change report_state try_recover
service_link_backoff l now later state recovered again b = ground arith
