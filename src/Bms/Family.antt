-- ===== src/Bms/Family.antt =====
-- bms_task.c: what a call of `bms_check` does to the counter and the latch of each family.
use powersuit.Base.{
  IsByte, sub32, u32, bit_or, ap₂, append_assoc, ℕ, ◌<◌, ◌≡◌, ◌≢◌, refl, sym, ap, ◌∙◌, arith, by_if,
  Bool, true, false, not, ◌&&◌, ◌||◌, List, [], ◌∷◌, ◌++◌, length, length-set, get_or, set,
  get_or-set_self, get_or-set_ne, All, leb, ltb, if◌then◌else◌,
}
use powersuit.Bms.{Bms, Act, Times, raise_estop, warn, send_safety_both}
use powersuit.Bms.Trip.{check, check_all, Finding, next_deb}

abbrev pub deb_of : Bms → ℕ → ℕ
deb_of s j = get_or s.deb j 0

abbrev pub trip_of : Bms → ℕ → Bool
trip_of s j = get_or s.tripped j false

-- One counter and one latch for each family, and a low byte that is one.
abbrev pub IsSized : Bms → Type 0
IsSized s = (length s.deb ≡ 6) × (length s.tripped ≡ 6) × IsByte s.safety_low

-- The variables that escalation reads and does not write.
abbrev pub Kept : Bms → Bms → Type 0
Kept s s' =
    (s'.short_latched ≡ s.short_latched)
    × (s'.rearm_requested ≡ s.rearm_requested)
    × (s'.full_scan_done ≡ s.full_scan_done)

-- The new state of the checks differs from the old one in the counter and the latch given.
abbrev pub Checked : Bms → List ℕ → List Bool → Bms → Type 0
Checked s deb tripped s' =
    (s'.deb ≡ deb)
    × (s'.tripped ≡ tripped)
    × Kept s s'
    × (IsByte s.safety_low → IsByte s'.safety_low)

pub raise_estop-Checked :
    (s : Bms) (t : Times) (cause : ℕ) → Checked s s.deb s.tripped (raise_estop s t cause).0
unfolding raise_estop send_safety_both
raise_estop-Checked s t cause = (refl, refl, (refl, refl, refl), λ h. omega arith)

pub warn-Checked :
    (s : Bms) (t : Times) (fam detail : ℕ) → Checked s s.deb s.tripped (warn s t fam detail).0
unfolding warn
warn-Checked s t fam detail =
    by_if (λ (r : Bms × List Act). Checked s s.deb s.tripped r.0)
      (ltb (sub32 (u32 t.now) (get_or s.warn_last_ms fam 0)) 1000)
      (refl, refl, (refl, refl, refl), λ h. h) (refl, refl, (refl, refl, refl), λ h. omega arith)

abbrev deb_after : Bms → Finding → ℕ
deb_after s c = next_deb (deb_of s c.fam) c.crit

abbrev counted : Bms → Finding → Bms
counted s c = record s { deb = set s.deb c.fam (deb_after s c) }

abbrev trips : Bms → Finding → Bool
trips s c = not (trip_of s c.fam) && leb 50 (deb_after s c)

check-Checked :
    (s : Bms) (t : Times) (c : Finding)
    → Checked s
        (set s.deb c.fam (deb_after s c))
        (if trips s c then set s.tripped c.fam true else s.tripped)
        (check s t c).0
unfolding check
check-Checked s t c = at (trip_of s c.fam) (leb 50 (deb_after s c)) c.warns
  where
    at :
        (latched due warns : Bool)
        → Checked s
            (set s.deb c.fam (deb_after s c))
            (if not latched && due then set s.tripped c.fam true else s.tripped)
            (if latched
              then (counted s c, [])
              else if due
              then raise_estop
                  (record (counted s c) {
                    tripped = set s.tripped c.fam true;
                    fault_bits = bit_or s.fault_bits c.fault;
                  })
                  t
                  c.cause
              else if warns
              then warn (counted s c) t c.fam c.detail
              else (counted s c, [])).0
    at true due warns = (refl, refl, (refl, refl, refl), λ h. h)
    at false true warns = raise_estop-Checked _ t c.cause
    at false false true = warn-Checked (counted s c) t c.fam c.detail
    at false false false = (refl, refl, (refl, refl, refl), λ h. h)

pub check-IsSized :
    (s : Bms) (t : Times) (c : Finding)
    → IsSized s
    → IsSized (check s t c).0 × Kept s (check s t c).0
check-IsSized s t c (ld, lt, low) =
    let (d, p, k, w) = check-Checked s t c in
    (
      (
        ap length d ∙ length-set s.deb c.fam (deb_after s c) ∙ ld,
        ap length p ∙ sized (trips s c) ∙ lt,
        w low,
      ),
      k,
    )
  where
    sized :
        (b : Bool) → length (if b then set s.tripped c.fam true else s.tripped) ≡ length s.tripped
    sized true = length-set s.tripped c.fam true
    sized false = refl

-- A family after a call of `bms_check` for it, and after one for another.
check_at :
    (s : Bms) (t : Times) (c : Finding)
    → IsSized s
    → c.fam < 6
    → (deb_of (check s t c).0 c.fam ≡ deb_after s c)
      × (trip_of (check s t c).0 c.fam ≡ (trip_of s c.fam || leb 50 (deb_after s c)))
check_at s t c (ld, lt, _) h =
    let (d, p, _, _) = check-Checked s t c in
    (
      ap (λ l. get_or l c.fam 0) d
          ∙ get_or-set_self s.deb c.fam (deb_after s c) 0 (omega (arith, ld)),
      ap (λ l. get_or l c.fam false) p ∙ latch (trip_of s c.fam) (leb 50 (deb_after s c)) refl,
    )
  where
    latch :
        (was due : Bool)
        → trip_of s c.fam ≡ was
        → get_or (if not was && due then set s.tripped c.fam true else s.tripped) c.fam false
          ≡ (was || due)
    latch true due e = e
    latch false true e = get_or-set_self s.tripped c.fam true false (omega (arith, lt, h))
    latch false false e = e

check_other :
    (s : Bms) (t : Times) (c : Finding) (j : ℕ)
    → c.fam ≢ j
    → (deb_of (check s t c).0 j ≡ deb_of s j) × (trip_of (check s t c).0 j ≡ trip_of s j)
check_other s t c j n =
    let (d, p, _, _) = check-Checked s t c in
    (
      ap (λ l. get_or l j 0) d ∙ get_or-set_ne s.deb (deb_after s c) 0 n,
      ap (λ l. get_or l j false) p ∙ other (trips s c),
    )
  where
    other :
        (b : Bool)
        → get_or (if b then set s.tripped c.fam true else s.tripped) j false ≡ trip_of s j
    other true = get_or-set_ne s.tripped true false n
    other false = refl

-- Checks of other families leave a family alone.
check_all-skip :
    (s : Bms) (times : ℕ → Times) (cs : List Finding) (j : ℕ)
    → IsSized s
    → All (λ (c : Finding). c.fam ≢ j) cs
    → let s' = (check_all s times cs).0 in
      (deb_of s' j ≡ deb_of s j) × (trip_of s' j ≡ trip_of s j) × IsSized s' × Kept s s'
unfolding check_all
check_all-skip s times [] j z h = (refl, refl, z, (refl, refl, refl))
check_all-skip s times (c ∷ cs) j z (n, h) =
    let (d, p) = check_other s (times c.fam) c j n in
    let (z1, k) = check-IsSized s (times c.fam) c z in
    let (d', p', z', k') = check_all-skip (check s (times c.fam) c).0 times cs j z1 h in
    (d' ∙ d, p' ∙ p, z', (k'.0 ∙ k.0, k'.1 ∙ k.1, k'.2 ∙ k.2))

-- A family in checks that name it once: what becomes of it, and the check's own part of the actions.
pub record Stepped (s s' s0 : Bms) (t : Times) (c : Finding) (a b acts : List Act) : Type 0 where
  pub deb_is : deb_of s' c.fam ≡ next_deb (deb_of s c.fam) c.crit
  pub trip_is : trip_of s' c.fam ≡ (trip_of s c.fam || leb 50 (next_deb (deb_of s c.fam) c.crit))
  pub sized : IsSized s'
  pub kept : Kept s s'
  pub low_in : IsByte s0.safety_low
  pub deb_before : deb_of s0 c.fam ≡ deb_of s c.fam
  pub trip_before : trip_of s0 c.fam ≡ trip_of s c.fam
  pub acts_are : acts ≡ a ++ ((check s0 t c).1 ++ b)

pub check_all-Stepped :
    (s : Bms) (times : ℕ → Times) (pre : List Finding) (c : Finding) (post : List Finding)
    → IsSized s
    → c.fam < 6
    → All (λ (x : Finding). x.fam ≢ c.fam) pre
    → All (λ (x : Finding). x.fam ≢ c.fam) post
    → (s0 : Bms) × (a : List Act) × (b : List Act) × Stepped s
        (check_all s times (pre ++ c ∷ post)).0
        s0
        (times c.fam)
        c
        a
        b
        (check_all s times (pre ++ c ∷ post)).1
unfolding check_all
check_all-Stepped s times [] c post z h n m =
    let (d, p) = check_at s (times c.fam) c z h in
    let (z1, k) = check-IsSized s (times c.fam) c z in
    let (d', p', z', k') = check_all-skip (check s (times c.fam) c).0 times post c.fam z1 m in
    (
      s,
      [],
      (check_all (check s (times c.fam) c).0 times post).1,
      record {
        deb_is = d' ∙ d;
        trip_is = p' ∙ p;
        sized = z';
        kept = (k'.0 ∙ k.0, k'.1 ∙ k.1, k'.2 ∙ k.2);
        low_in = z.2;
        deb_before = refl;
        trip_before = refl;
        acts_are = refl;
      },
    )
check_all-Stepped s times (x ∷ pre) c post z h (n, ns) m =
    let (d, p) = check_other s (times x.fam) x c.fam n in
    let (z1, k) = check-IsSized s (times x.fam) x z in
    let s1 = (check s (times x.fam) x).0 in
    let (s0, a, b, r) = check_all-Stepped s1 times pre c post z1 h ns m in
    (
      s0,
      (check s (times x.fam) x).1 ++ a,
      b,
      record {
        deb_is = r.deb_is ∙ ap (λ v. next_deb v c.crit) d;
        trip_is = r.trip_is ∙ ap₂ (λ u v. u || leb 50 (next_deb v c.crit)) p d;
        sized = r.sized;
        kept = (r.kept.0 ∙ k.0, r.kept.1 ∙ k.1, r.kept.2 ∙ k.2);
        low_in = r.low_in;
        deb_before = r.deb_before ∙ d;
        trip_before = r.trip_before ∙ p;
        acts_are =
            ap (λ l. (check s (times x.fam) x).1 ++ l) r.acts_are
            ∙ sym (append_assoc (check s (times x.fam) x).1 a ((check s0 (times c.fam) c).1 ++ b));
      },
    )
