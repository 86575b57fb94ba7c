-- ===== src/Gateway/Dispatch.antt =====
-- gateway_task.c: the mirror of the suit's state, and the flag of the link's header that tells it.
use powersuit.Base.{
  by_if, ℕ, ◌+◌, ◌≡◌, refl, sym, ap, ◌∙◌, arith, Bool, true, false, not, ◌||◌, List, [], ◌∷◌, ◌++◌,
  ◌⊎◌, inl, inr, Bool-cases, if◌then◌else◌, ◌==◌, ltb, u32,
}
use powersuit.CanId.{
  CanFrame, unpack, cls_safety, cls_control, cls_mgmt, t_heartbeat, t_estop, t_clear_estop,
  t_mode_set, t_led_pattern, t_time_sync, t_flow_ctl, node_orch,
}
use powersuit.Wire.{State, code, estop}
use powersuit.Wire.SafetyPayloads.{read_heartbeat, read_estop, read_clear_estop}
use powersuit.Wire.ControlPayloads.{read_mode_set}
use powersuit.Wire.LinkPayloads.{read_flow_ctl}
use powersuit.Safety
use powersuit.Safety.{
  Core, Event, step, same, on_clear, on_heartbeat, on_estop, on_mode_set, on_local_fault, tick,
}
use powersuit.Gateway.{
  Gateway, Action, set_estop_flag, clear_accepted, can_send, uplink_push, led_override, publish,
  settle, safety_tick, local_estop, local_safety, local_control, local_mgmt, local_dispatch,
}

-- The flag of the header after the actions, from the flag before them.
abbrev pub flag_after : Bool → List Action → Bool
flag_after b [] = b
flag_after b (set_estop_flag on ∷ acts) = flag_after on acts
flag_after b (_ ∷ acts) = flag_after b acts

-- The state was published, and the flag tells if it is ESTOP.
abbrev pub Tells : Gateway → Bool → Type 0
Tells g b = (g.last_pub_state ≡ code g.mirror.state) × (b ≡ same g.mirror.state estop)

-- What becomes of the mirror: it stays, or it takes one step of the safety core.
abbrev pub Follows : Core → ℕ → Core → Type 0
Follows c now c' = (c' ≡ c) ⊎ ((e : Event) × (c' ≡ (step c now e).0))

code_injective : (s t : State) → code s ≡ code t → s ≡ t
code_injective s t h = ground arith

pub flag_after-append :
    (b : Bool) (xs ys : List Action) → flag_after b (xs ++ ys) ≡ flag_after (flag_after b xs) ys
flag_after-append b [] ys = refl
flag_after-append b (can_send n f ∷ xs) ys = flag_after-append b xs ys
flag_after-append b (uplink_push r ∷ xs) ys = flag_after-append b xs ys
flag_after-append b (set_estop_flag on ∷ xs) ys = flag_after-append on xs ys
flag_after-append b (clear_accepted ∷ xs) ys = flag_after-append b xs ys
flag_after-append b (led_override p ∷ xs) ys = flag_after-append b xs ys

settle-Tells :
    (g : Gateway) (m : Core) (b : Bool)
    → Tells g b
    → Tells (settle g m).0 (flag_after b (settle g m).1)
unfolding settle publish
settle-Tells g m b (h, f) = elim (Bool-cases (code m.state == g.last_pub_state)) [
  | inl e ↦
      (let q : code m.state ≡ g.last_pub_state = ground arith in
        rw e (sym q, f ∙ ap (λ n. n == code estop) (sym h ∙ sym q)))
  | inr e ↦ rw e (refl, refl)
]

pub publish_mirror : (g : Gateway) (m : Core) → (settle g m).0.mirror ≡ m
unfolding settle publish
publish_mirror g m = elim (Bool-cases (code m.state == g.last_pub_state)) [
  | inl e ↦ rw e refl
  | inr e ↦ rw e refl
]

-- What every operation keeps, for its result.
abbrev pub Keeps : Gateway → ℕ → Bool → Gateway × List Action → Type 0
Keeps g now b (g', acts) = Tells g' (flag_after b acts) × Follows g.mirror now g'.mirror

module _ (g : Gateway) (now : ℕ) (b : Bool) (t : Tells g b) where
  still : Keeps g now b (g, [])
  still = (t, inl refl)

  published : (e : Event) (m : Core) → m ≡ (step g.mirror now e).0 → Keeps g now b (settle g m)
  published e m q = (settle-Tells g m b t, inr (e, publish_mirror g m ∙ q))

  pub safety_tick-Keeps : Keeps g now b (safety_tick g now)
  unfolding safety_tick step
  safety_tick-Keeps = published Safety.timer _ refl

  pub local_estop-Keeps : (cause : ℕ) → Keeps g now b (local_estop g now cause)
  unfolding local_estop step
  local_estop-Keeps cause = published (Safety.local_fault cause) _ refl

  cleared :
      (m : Core) (yes : Bool) (e : Event)
      → m ≡ (step g.mirror now e).0
      → Keeps g now b ((settle g m).0, (settle g m).1 ++ (if yes then clear_accepted ∷ [] else []))
  cleared m true e q =
      let (told, follows) = published e m q in
      (rw (flag_after-append b (settle g m).1 (clear_accepted ∷ [])) told, follows)
  cleared m false e q =
      let (told, follows) = published e m q in
      (rw (flag_after-append b (settle g m).1 []) told, follows)

  local_safety-Keeps : (f : CanFrame) (type : ℕ) → Keeps g now b (local_safety g now f type)
  unfolding local_safety step
  local_safety-Keeps f type =
      by_if (Keeps g now b) (type == t_heartbeat)
        (by_if (Keeps g now b) (ltb f.dlc 8) still
          (published (Safety.heartbeat (read_heartbeat f.payload)) _ refl))
        (by_if (Keeps g now b) (type == t_estop)
          (by_if (Keeps g now b) (ltb f.dlc 8) still
            (published (Safety.estop_frame (read_estop f.payload).cause) _ refl))
          (by_if (Keeps g now b) (type == t_clear_estop)
            (by_if (Keeps g now b) (ltb f.dlc 8) still (
              cleared _ _
                (Safety.clear (read_clear_estop f.payload).magic
                  (read_clear_estop f.payload).counter)
                refl))
            still))

  local_control-Keeps : (f : CanFrame) (type : ℕ) → Keeps g now b (local_control g now f type)
  unfolding local_control step
  local_control-Keeps f type =
      by_if (Keeps g now b) (type == t_led_pattern)
        (by_if (Keeps g now b) (ltb f.dlc 8) still (t, inl refl))
        (by_if (Keeps g now b) (type == t_mode_set)
          (by_if (Keeps g now b) (ltb f.dlc 1) still
            (published (Safety.mode_set (read_mode_set f.payload).target_state) _ refl))
          still)

  local_mgmt-Keeps : (f : CanFrame) (src type : ℕ) → Keeps g now b (local_mgmt g now f src type, [])
  unfolding local_mgmt
  local_mgmt-Keeps f src type =
      let P : Gateway → Type 0 = λ g'. Keeps g now b (g', []) in
      by_if P (type == t_time_sync)
        (by_if P (ltb f.dlc 8 || not (src == node_orch)) still (t, inl refl))
        (by_if P (type == t_flow_ctl)
          (by_if P (ltb f.dlc 2) still
            (by_if P (ltb (read_flow_ctl f.payload).plane 8) (t, inl refl) still))
          still)

pub local_dispatch-Keeps :
    (g : Gateway) (now : ℕ) (b : Bool) (f : CanFrame)
    → Tells g b
    → Keeps g now b (local_dispatch g now f)
unfolding local_dispatch
local_dispatch-Keeps g now b f t =
    let g' : Gateway = record g { local_consumed = u32 (g.local_consumed + 1) } in
    let id = unpack f.id in
    by_if (Keeps g now b) (id.cls == cls_safety) (local_safety-Keeps g' now b t f id.type) (
      by_if (Keeps g now b) (id.cls == cls_control) (local_control-Keeps g' now b t f id.type) (
        by_if (Keeps g now b) (id.cls == cls_mgmt) (local_mgmt-Keeps g' now b t f id.src id.type)
          (t, inl refl)))
