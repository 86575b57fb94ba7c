-- ===== src/Bms/Trip.antt =====
-- bms_task.c: the debounced trips, `bms_check` and `bms_check_thresholds`.
use powersuit.Base.{
  ℕ, ◌+◌, Bool, true, false, not, List, [], ◌∷◌, ◌++◌, get_or, set, drop, leb, ltb, if◌then◌else◌,
  bit_or,
}
use powersuit.Base.Int.{ℤ, pos, negsuc, ltb_ℤ, ◌-ℤ◌}
use powersuit.Bytes.{of_i16}
use powersuit.Wire.{estop_bms_overvolt, estop_bms_undervolt, estop_thermal}
use powersuit.Bms.{
  Bms, Act, Times, raise_estop, warn, fam_ov, fam_uv, fam_ot, fam_ut, fam_ocd, fam_occ,
}

-- `HUB_BMS_THRESHOLDS_DEFAULT`, by the names of `hub_bms_thresholds_t`
abbrev pub cell_ov_mv : ℕ
cell_ov_mv = 4250

abbrev pub cell_ov_warn_mv : ℕ
cell_ov_warn_mv = 4150

abbrev pub cell_uv_mv : ℕ
cell_uv_mv = 2800

abbrev pub cell_uv_warn_mv : ℕ
cell_uv_warn_mv = 2950

abbrev pub ot_cc : ℤ
ot_cc = pos 6000

abbrev pub ot_warn_cc : ℤ
ot_warn_cc = pos 5500

abbrev pub ut_cc : ℤ
ut_cc = negsuc 999

abbrev pub ut_warn_cc : ℤ
ut_warn_cc = negsuc 499

abbrev pub oc_dis_ca : ℤ
oc_dis_ca = pos 12000

abbrev pub oc_dis_warn_ca : ℤ
oc_dis_warn_ca = pos 10000

abbrev pub oc_chg_ca : ℤ
oc_chg_ca = pos 2000

abbrev pub oc_chg_warn_ca : ℤ
oc_chg_warn_ca = pos 1800

abbrev pub debounce_ms : ℕ
debounce_ms = 50

-- `PS_BMSF_*`
abbrev pub fault_short_latch : ℕ
fault_short_latch = 1

abbrev pub fault_ov : ℕ
fault_ov = 2

abbrev pub fault_uv : ℕ
fault_uv = 4

abbrev pub fault_ot : ℕ
fault_ot = 8

abbrev pub fault_ut : ℕ
fault_ut = 16

abbrev pub fault_oc_charge : ℕ
fault_oc_charge = 32

abbrev pub fault_oc_discharge : ℕ
fault_oc_discharge = 64

abbrev pub fault_comp_armed : ℕ
fault_comp_armed = 128

-- The arguments of a call of `bms_check`.
pub record Finding : Type 0 where
  pub fam : ℕ
  pub crit : Bool
  pub warns : Bool
  pub cause : ℕ
  pub fault : ℕ
  pub detail : ℕ

-- The counter of `bms_check`, which stays at 0xFFFF.
abbrev pub next_deb : ℕ → Bool → ℕ
next_deb n crit = if crit then (if ltb n 0xFFFF then n + 1 else n) else 0

-- `bms_check`
unfoldable pub check : Bms → Times → Finding → Bms × List Act
check s t c =
    let n = next_deb (get_or s.deb c.fam 0) c.crit in
    let s' = record s { deb = set s.deb c.fam n } in
    if get_or s.tripped c.fam false
    then (s', [])
    else if leb debounce_ms n
    then raise_estop
        (record s' { tripped = set s.tripped c.fam true; fault_bits = bit_or s.fault_bits c.fault })
        t c.cause
    else if c.warns
    then warn s' t c.fam c.detail
    else (s', [])

-- Calls of `bms_check` one after the other; `times` is the clock by family.
unfoldable pub check_all : Bms → (ℕ → Times) → List Finding → Bms × List Act
check_all s times [] = (s, [])
check_all s times (c ∷ cs) =
    let (s1, a1) = check s (times c.fam) c in let (s2, a2) = check_all s1 times cs in (s2, a1 ++ a2)

-- A loop of `bms_check_thresholds` that looks for a minimum or a maximum.
unfoldable pub best : {A : Type 0} → (A → A → Bool) → A → List A → A
best better m [] = m
best better m (x ∷ xs) = best better (if better x m then x else m) xs

abbrev pub vmin : Bms → ℕ
vmin s = best (λ x m. ltb x m) 0xFFFF s.cell_mv

abbrev pub vmax : Bms → ℕ
vmax s = best (λ x m. ltb m x) 0 s.cell_mv

abbrev pub tmin : Bms → ℤ
tmin s = best (λ x m. ltb_ℤ x m) (get_or s.ntc_cc 0 (pos 0)) (drop 1 s.ntc_cc)

abbrev pub tmax : Bms → ℤ
tmax s = best (λ x m. ltb_ℤ m x) (get_or s.ntc_cc 0 (pos 0)) (drop 1 s.ntc_cc)

-- `-s_curr_cA`
abbrev pub charge_ca : Bms → ℤ
charge_ca s = pos 0 -ℤ s.curr_ca

-- The six calls of `bms_check_thresholds`.
unfoldable pub findings : Bms → List Finding
findings s =
    record {
      fam = fam_ov;
      crit = ltb cell_ov_mv (vmax s);
      warns = ltb cell_ov_warn_mv (vmax s);
      cause = estop_bms_overvolt;
      fault = fault_ov;
      detail = vmax s;
    }
    ∷ record {
      fam = fam_uv;
      crit = ltb (vmin s) cell_uv_mv;
      warns = ltb (vmin s) cell_uv_warn_mv;
      cause = estop_bms_undervolt;
      fault = fault_uv;
      detail = vmin s;
    }
    ∷ record {
      fam = fam_ot;
      crit = ltb_ℤ ot_cc (tmax s);
      warns = ltb_ℤ ot_warn_cc (tmax s);
      cause = estop_thermal;
      fault = fault_ot;
      detail = of_i16 (tmax s);
    }
    ∷ record {
      fam = fam_ut;
      crit = ltb_ℤ (tmin s) ut_cc;
      warns = ltb_ℤ (tmin s) ut_warn_cc;
      cause = estop_thermal;
      fault = fault_ut;
      detail = of_i16 (tmin s);
    }
    ∷ record {
      fam = fam_ocd;
      crit = ltb_ℤ oc_dis_ca s.curr_ca;
      warns = ltb_ℤ oc_dis_warn_ca s.curr_ca;
      cause = estop_thermal;
      fault = fault_oc_discharge;
      detail = of_i16 s.curr_ca;
    }
    ∷ record {
      fam = fam_occ;
      crit = ltb_ℤ oc_chg_ca (charge_ca s);
      warns = ltb_ℤ oc_chg_warn_ca (charge_ca s);
      cause = estop_thermal;
      fault = fault_oc_charge;
      detail = of_i16 (charge_ca s);
    }
    ∷ []

-- `bms_check_thresholds`
unfoldable pub check_thresholds : Bms → (ℕ → Times) → Bms × List Act
unfolding check check_all
check_thresholds s times = if not s.full_scan_done then (s, []) else check_all s times (findings s)
