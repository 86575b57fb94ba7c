-- ===== src/Hud.antt =====
-- firmware/apps/node_helmet/main/hud_model.c: the model that the helmet's display is drawn from. The lock makes
-- every function one step. A string is the list of its bytes before the NUL.
use powersuit.Base.{
  ℕ, zero, suc, ◌+◌, ◌-◌, ◌≤◌, ◌<◌, ◌≡◌, refl, ap, ◌∙◌, arith, Bool, true, false, Option, none,
  some, List, [], ◌∷◌, ◌++◌, length, take, drop, set, replicate, leb, ltb, if◌then◌else◌,
  Bool-cases, inl, inr, length-take, length-drop, length-append, take-append, length-set,
}
use powersuit.Base.Queue.{put}

abbrev pub max_warnings : ℕ
max_warnings = 6

abbrev pub warning_len : ℕ
warning_len = 40

-- `hud_model_t`, less the airspeed, which nothing here sets; a row of `warnings` has `warning_len` bytes.
pub record Hud : Type 0 where
  pub safety_state : ℕ
  pub battery_pct : ℕ
  pub battery_valid : Bool
  pub cloud_up : Bool
  pub warnings : List (List ℕ)
  pub warning_count : ℕ

-- `helmet_hud_set_state`
unfoldable pub set_state : Hud → ℕ → Hud
set_state m s = record m { safety_state = s }

-- `helmet_hud_set_battery`
unfoldable pub set_battery : Hud → ℕ → Hud
set_battery m pct = record m { battery_pct = pct; battery_valid = true }

-- `helmet_hud_set_cloud`
unfoldable pub set_cloud : Hud → Bool → Hud
set_cloud m up = record m { cloud_up = up }

-- The row that `strncpy` and the final NUL leave.
abbrev pub row : List ℕ → List ℕ
row text = take (warning_len - 1) (text ++ replicate warning_len 0) ++ 0 ∷ []

-- The `memmove` under a full list: every row moves down, and the last stays as well.
unfoldable pub drop_first : Hud → Hud
drop_first m = record m {
  warnings = drop 1 (take max_warnings m.warnings) ++ drop (max_warnings - 1) m.warnings;
  warning_count = max_warnings - 1;
}

-- `helmet_hud_push_warning`; `none` is the null pointer.
unfoldable pub push_warning : Hud → Option (List ℕ) → Hud
unfolding drop_first
push_warning m none = m
push_warning m (some text) =
    let m' = if leb max_warnings m.warning_count then drop_first m else m in
    record m' {
      warnings = set m'.warnings m'.warning_count (row text);
      warning_count = m'.warning_count + 1;
    }

-- `helmet_hud_clear_warnings`
unfoldable pub clear_warnings : Hud → Hud
clear_warnings m = record m { warning_count = 0 }

-- The warnings that are shown, oldest first.
abbrev pub shown : Hud → List (List ℕ)
shown m = take m.warning_count m.warnings

-- The array has its size, and the count is within it.
pub record HudIsValid (m : Hud) : Type 0 where
  pub rows : length m.warnings ≡ max_warnings
  pub count : m.warning_count ≤ max_warnings

take-set_end :
    {A : Type 0} (xs : List A) (n : ℕ) (v : A)
    → n < length xs
    → take (n + 1) (set xs n v) ≡ take n xs ++ v ∷ []
take-set_end [] n v h = absurd (omega arith)
take-set_end (x ∷ xs) zero v h = refl
take-set_end (x ∷ xs) (suc n) v h =
    let e : suc n + 1 ≡ suc (n + 1) = omega arith in
    rw e (ap (λ l. x ∷ l) (take-set_end xs n v (omega arith)))

-- From a well-formed model, a new warning is shown last, after those that were shown, less the oldest where the list
-- is full; the model stays well-formed, and nothing else of it changes.
pub push_warning-put :
    (m : Hud) (text : List ℕ)
    → HudIsValid m
    → let m' = push_warning m (some text) in
      (shown m' ≡ put max_warnings (shown m) (row text))
      × HudIsValid m'
      × (m'.safety_state ≡ m.safety_state)
      × (m'.battery_pct ≡ m.battery_pct)
      × (m'.battery_valid ≡ m.battery_valid)
      × (m'.cloud_up ≡ m.cloud_up)
unfolding push_warning
push_warning-put m text v = elim (Bool-cases (leb max_warnings m.warning_count)) [
  | inl full ↦
      (let six : m.warning_count ≡ 6 = ground (arith, v.count) in
        let kept = drop 1 (take 6 m.warnings) in
        let size : length (take 6 m.warnings) ≡ 6 =
          omega (arith, length-take 6 m.warnings, v.rows) in
        let five : length kept ≡ 5 = omega (arith, length-drop 1 (take 6 m.warnings)) in
        let rows : length (kept ++ drop 5 m.warnings) ≡ 6 =
          omega (arith, length-append kept (drop 5 m.warnings), length-drop 5 m.warnings, v.rows) in
        let big : ltb (length (take 6 m.warnings)) 6 ≡ false = ground arith in
        rw (full, six, big)
          (
            take-set_end (kept ++ drop 5 m.warnings) 5 (row text) (omega arith)
                ∙ ap (λ l. l ++ row text ∷ []) (take-append kept (drop 5 m.warnings) 5 five),
            record { rows = length-set _ 5 (row text) ∙ rows; count = omega arith },
            refl,
            refl,
            refl,
            refl,
          ))
  | inr room ↦
      (let less : m.warning_count < 6 = ground arith in
        let small : ltb (length (take m.warning_count m.warnings)) 6 ≡ true =
          ground (arith, length-take m.warning_count m.warnings) in
        rw (room, small)
          (
            take-set_end m.warnings m.warning_count (row text) (omega (arith, v.rows)),
            record {
              rows = length-set m.warnings m.warning_count (row text) ∙ v.rows;
              count = omega arith;
            },
            refl,
            refl,
            refl,
            refl,
          ))
]
