-- ===== src/Limb/Range.antt =====
-- node_limb: what is commanded stays within the limits of the board.
use powersuit.Base.{
  ℕ, zero, suc, ◌+◌, ◌≤◌, ◌≡◌, refl, sym, ap, subst, ◌∙◌, arith, by_if, Bool-cases, inl, inr, Bool,
  true, not, ◌||◌, Option, none, some, List, [], ◌∷◌, length, length-set, get_or, set, replicate,
  ltb, leb, if◌then◌else◌, ◌==◌, u32, map, ◌++◌, take,
}
use powersuit.Base.Int.{ℤ, pos, ◌≤ℤ◌, ltb_ℤ}
use powersuit.CanId.{CanFrame, id_type, t_mode_set}
use powersuit.Wire.{State, boot, standby, operational, passive, estop, fault, estop_software}
use powersuit.Wire.ControlPayloads.{read_joint_cmd, read_mode_set}
use powersuit.Safety.{Call}
use powersuit.SafetyNode.{
  Node, note_mode_set, note_cmd, raise_estop, safety_rx, tick_cb, can_state_cb,
}
use powersuit.Limb.{
  Limb, JointCfg, Setpoint, Act, Input, at_rest, setpoint_of, cfg_of, setpoint_set,
  setpoint_zero_all, on_transition, transitions, heard, clamp, handle_joint_cmd, handle_mode_set,
  control_rx, overcurrent, set_torque_limit, step, run, arm_joints, leg_joints, control_frame,
  safety_frame, timer, bus_state, current, torque_limit, can_send,
}

-- A joint may rest, and its torque limit is not negative.
abbrev pub CfgIsValid : JointCfg → Type 0
CfgIsValid c = (c.pos_min_crad ≤ℤ pos 0) × (pos 0 ≤ℤ c.pos_max_crad) × (pos 0 ≤ℤ c.torque_limit_cnm)

abbrev pub BoardIsValid : List JointCfg → Type 0
BoardIsValid b = (j : ℕ) → CfgIsValid (cfg_of b j)

pub boards : BoardIsValid arm_joints × BoardIsValid leg_joints
boards = (λ j. arm j, λ j. leg j)
  where
    arm : (j : ℕ) → CfgIsValid (cfg_of arm_joints j)
    arm zero = omega arith
    arm (suc zero) = omega arith
    arm (suc (suc j)) = omega arith

    leg : (j : ℕ) → CfgIsValid (cfg_of leg_joints j)
    leg zero = omega arith
    leg (suc zero) = omega arith
    leg (suc (suc j)) = omega arith

-- A mode that exists, and a position in the joint's mechanical range.
abbrev pub Fits : JointCfg → Setpoint → Type 0
Fits c sp = (sp.mode ≤ 4) × (c.pos_min_crad ≤ℤ sp.pos_crad) × (sp.pos_crad ≤ℤ c.pos_max_crad)

abbrev pub Within : JointCfg → ℤ → Type 0
Within c v = (pos 0 ≤ℤ v) × (v ≤ℤ c.torque_limit_cnm)

-- Every setpoint and every torque limit is within the limits of the board.
pub record IsSafe (board : List JointCfg) (l : Limb) : Type 0 where
  pub table : l.board ≡ board
  pub joints : length l.setpoints ≡ 2
  pub fits : (j : ℕ) → Fits (cfg_of board j) (setpoint_of l j)
  pub limits : (j : ℕ) → Within (cfg_of board j) (get_or l.torque_limit_cnm j (pos 0))

rest_of : (n j : ℕ) → get_or (replicate n at_rest) j at_rest ≡ at_rest
rest_of zero j = refl
rest_of (suc n) zero = refl
rest_of (suc n) (suc j) = rest_of n j

clamp_within :
    (lo hi z : ℤ) → lo ≤ℤ pos 0 → pos 0 ≤ℤ hi → (lo ≤ℤ clamp lo hi z) × (clamp lo hi z ≤ℤ hi)
clamp_within lo hi z a b = ground arith

-- What holds at every place still does after a write of a value for which it holds.
set_keeps :
    {A : Type 0} (P : ℕ → A → Type 0) (xs : List A) (j : ℕ) (v d : A)
    → ((i : ℕ) → P i (get_or xs i d))
    → P j v
    → (i : ℕ) → P i (get_or (set xs j v) i d)
set_keeps P [] j v d h p i = h i
set_keeps P (x ∷ xs) zero v d h p zero = p
set_keeps P (x ∷ xs) zero v d h p (suc i) = h (suc i)
set_keeps P (x ∷ xs) (suc j) v d h p zero = h zero
set_keeps P (x ∷ xs) (suc j) v d h p (suc i) =
    set_keeps (λ k. P (suc k)) xs j v d (λ k. h (suc k)) p i

-- Only the board, the setpoints and the limits count.
same_parts :
    {board : List JointCfg} {l : Limb} (l' : Limb)
    → IsSafe board l
    → l'.board ≡ l.board
    → l'.setpoints ≡ l.setpoints
    → l'.torque_limit_cnm ≡ l.torque_limit_cnm
    → IsSafe board l'
same_parts {board} l' s b p t = record {
  table = b ∙ s.table;
  joints = ap length p ∙ s.joints;
  fits = λ j. subst (λ x. Fits (cfg_of board j) (get_or x j at_rest)) (sym p) (s.fits j);
  limits = λ j. subst (λ x. Within (cfg_of board j) (get_or x j (pos 0))) (sym t) (s.limits j);
}

derated :
    (max v : ℤ)
    → pos 0 ≤ℤ max
    → let v1 = if ltb_ℤ v (pos 0) then pos 0 else v in
      let r = if ltb_ℤ max v1 then max else v1 in (pos 0 ≤ℤ r) × (r ≤ℤ max)
derated max v h = ground arith

module _ (board : List JointCfg) (ok : BoardIsValid board) where
  rests : (j : ℕ) → Fits (cfg_of board j) at_rest
  rests j = let (a, b, _) = ok j in (omega arith, a, b)

  zero_all-IsSafe : {l : Limb} → IsSafe board l → IsSafe board (setpoint_zero_all l)
  unfolding setpoint_zero_all
  zero_all-IsSafe s = record {
    table = s.table;
    joints = refl;
    fits = λ j. subst (Fits (cfg_of board j)) (sym (rest_of 2 j)) (rests j);
    limits = s.limits;
  }

  on_transition-IsSafe :
      (l : Limb) (st : State) → IsSafe board l → IsSafe board (on_transition l st).0
  unfolding on_transition
  on_transition-IsSafe l boot s = s
  on_transition-IsSafe l standby s = s
  on_transition-IsSafe l operational s = s
  on_transition-IsSafe l passive s = zero_all-IsSafe s
  on_transition-IsSafe l estop s = zero_all-IsSafe s
  on_transition-IsSafe l fault s = zero_all-IsSafe s

  transitions-IsSafe :
      (l : Limb) (cs : List Call) → IsSafe board l → IsSafe board (transitions l cs).0
  unfolding transitions
  transitions-IsSafe l [] s = s
  transitions-IsSafe l (c ∷ cs) s =
      transitions-IsSafe (on_transition l c.new).0 cs (on_transition-IsSafe l c.new s)

  heard-IsSafe : {l : Limb} (r : Node × List Call) → IsSafe board l → IsSafe board (heard l r).0
  unfolding heard
  heard-IsSafe {l} r s =
      transitions-IsSafe (record l { node = r.0 }) r.1
        (record { table = s.table; joints = s.joints; fits = s.fits; limits = s.limits })

  setpoint_set-IsSafe :
      {l : Limb} (j : ℕ) (sp : Setpoint)
      → IsSafe board l
      → Fits (cfg_of board j) sp
      → IsSafe board (setpoint_set l j sp)
  unfolding setpoint_set
  setpoint_set-IsSafe {l} j sp s f = elim (Bool-cases (leb 2 j)) [
    | inl out ↦ rw out s
    | inr in_range ↦ rw in_range (record {
      table = s.table;
      joints = length-set l.setpoints j sp ∙ s.joints;
      fits = set_keeps (λ i x. Fits (cfg_of board i) x) l.setpoints j sp at_rest s.fits f;
      limits = s.limits;
    })
  ]

  handle_joint_cmd-IsSafe :
      {l : Limb} (now : ℕ) (f : CanFrame) → IsSafe board l → IsSafe board (handle_joint_cmd l now f)
  unfolding handle_joint_cmd
  handle_joint_cmd-IsSafe {l} now f s =
      let cmd = read_joint_cmd f.payload in
      let rejected : IsSafe board (record l { cmd_rejected = u32 (l.cmd_rejected + 1) }) = record {
        table = s.table;
        joints = s.joints;
        fits = s.fits;
        limits = s.limits;
      } in
      by_if (IsSafe board) (ltb f.dlc 8) rejected
        (elim (Bool-cases (leb 2 cmd.joint || ltb 4 cmd.mode)) [
          | inl bad ↦ rw bad rejected
          | inr good ↦ rw good (accepted (ground arith))
        ])
    where
      accepted :
          (read_joint_cmd f.payload).mode ≤ 4
          → let cmd = read_joint_cmd f.payload in
            let cfg = cfg_of l.board cmd.joint in
            let l1 = setpoint_set l cmd.joint (record {
              mode = cmd.mode;
              pos_crad = clamp cfg.pos_min_crad cfg.pos_max_crad cmd.pos_crad;
              vel_crad_s = cmd.vel_crad_s;
              eff_cnm = cmd.eff_cnm;
            }) in
            IsSafe board
              (record l1 { node = note_cmd l1.node now; joint_cmd_rx = u32 (l1.joint_cmd_rx + 1) })
      accepted m =
          let cmd = read_joint_cmd f.payload in
          let (a, b, _) = ok cmd.joint in
          let sp : List JointCfg → Setpoint = λ t. record {
            mode = cmd.mode;
            pos_crad =
                clamp (cfg_of t cmd.joint).pos_min_crad (cfg_of t cmd.joint).pos_max_crad
                  cmd.pos_crad;
            vel_crad_s = cmd.vel_crad_s;
            eff_cnm = cmd.eff_cnm;
          } in
          let (lo, hi) = clamp_within _ _ cmd.pos_crad a b in
          let r =
            setpoint_set-IsSafe {l = l} cmd.joint (sp l.board) s
              (subst (λ t. Fits (cfg_of board cmd.joint) (sp t)) (sym s.table) (m, lo, hi)) in
          record { table = r.table; joints = r.joints; fits = r.fits; limits = r.limits }

  set_torque_limit-IsSafe :
      {l : Limb} (j : ℕ) (v : ℤ) → IsSafe board l → IsSafe board (set_torque_limit l j v)
  unfolding set_torque_limit
  set_torque_limit-IsSafe {l} j v s = record {
    table = s.table;
    joints = s.joints;
    fits = s.fits;
    limits =
        set_keeps (λ i x. Within (cfg_of board i) x) l.torque_limit_cnm j _ (pos 0) s.limits
          (subst
            (λ b.
              let max = (cfg_of b j).torque_limit_cnm in
              let v1 = if ltb_ℤ v (pos 0) then pos 0 else v in
              Within (cfg_of board j) (if ltb_ℤ max v1 then max else v1))
            (sym s.table) (derated (cfg_of board j).torque_limit_cnm v (ok j).2));
  }

  overcurrent-IsSafe :
      {l : Limb} (j : ℕ) (over : Bool) (uptime now : ℕ)
      → IsSafe board l
      → IsSafe board (overcurrent l j over uptime now).0
  unfolding overcurrent
  overcurrent-IsSafe {l} j over uptime now s =
      by_if (λ (r : Limb × List Act). IsSafe board r.0) (not over) zeroed
        (by_if (λ (r : Limb × List Act). IsSafe board r.0) (ltb 5 (u32 (get_or l.oc_ticks j 0 + 1)))
          (raised (raise_estop l.node uptime now estop_software true))
          (same_parts (record l { oc_ticks = set l.oc_ticks j (u32 (get_or l.oc_ticks j 0 + 1)) }) s
            refl refl refl))
    where
      zeroed : IsSafe board (record l { oc_ticks = set l.oc_ticks j 0 })
      zeroed = same_parts (record l { oc_ticks = set l.oc_ticks j 0 }) s refl refl refl

      counted : Limb
      counted = record l {
        oc_ticks = set l.oc_ticks j 0;
        overcurrent_trips = u32 (l.overcurrent_trips + 1);
      }

      raised :
          (o : Option (Node × List CanFrame × List Call × Bool))
          → let r : Limb × List Act = elim o [
            | none ↦ (counted, [])
            | some (n', frames, calls, sent) ↦
                let (l2, acts) = heard counted (n', calls) in (l2, map can_send frames ++ acts)
          ] in
            IsSafe board r.0
      raised none = same_parts counted s refl refl refl
      raised (some (n', frames, calls, sent)) =
          heard-IsSafe (n', calls) (same_parts counted s refl refl refl)

  pub step-IsSafe :
      {l : Limb} (now : ℕ) (i : Input) → IsSafe board l → IsSafe board (step l now i).0
  unfolding step control_rx handle_mode_set
  step-IsSafe {l} now (control_frame f) s =
      by_if (λ (r : Limb × List Act). IsSafe board r.0) (id_type f.id == 0x10)
        (handle_joint_cmd-IsSafe now f s)
        (by_if (λ (r : Limb × List Act). IsSafe board r.0) (id_type f.id == t_mode_set) mode s)
    where
      mode : IsSafe board (handle_mode_set l now f).0
      mode =
          let n = if ltb f.dlc 8 then f.dlc else 8 in
          let ms = read_mode_set (take n f.payload ++ replicate 8 0) in
          let r = heard l (note_mode_set (note_cmd l.node now) now ms.target_state) in
          same_parts (record r.0 { mode_set_rx = u32 (r.0.mode_set_rx + 1) })
            (heard-IsSafe (note_mode_set (note_cmd l.node now) now ms.target_state) s) refl refl
            refl
  step-IsSafe {l} now (safety_frame f) s = heard-IsSafe (safety_rx l.node now f) s
  step-IsSafe {l} now timer s = heard-IsSafe (tick_cb l.node now) s
  step-IsSafe {l} now (bus_state st) s = heard-IsSafe (can_state_cb l.node now st) s
  step-IsSafe now (current j over uptime) s = overcurrent-IsSafe j over uptime now s
  step-IsSafe now (torque_limit j v) s = set_torque_limit-IsSafe j v s

  -- On a board whose joints may rest, whatever frames, ticks, bus states, currents and parameters come, in any order and
  -- at any times: every setpoint keeps a mode that exists and a position in its joint's mechanical range, and
  -- every torque limit stays between zero and the board's.
  pub run-IsSafe : (l : Limb) (is : List (ℕ × Input)) → IsSafe board l → IsSafe board (run l is)
  unfolding run
  run-IsSafe l [] s = s
  run-IsSafe l ((now, i) ∷ is) s = run-IsSafe (step l now i).0 is (step-IsSafe now i s)
