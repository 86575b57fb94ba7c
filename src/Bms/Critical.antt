-- ===== src/Bms/Critical.antt =====
-- bms_task.c: when a family is critical, said of the cells, the temperatures and the current.
use powersuit.Base.{
  sym, ◌||◌, ap, ◌∙◌, ℕ, ◌+◌, ◌<◌, ◌≡◌, ◌≢◌, refl, arith, Bool, true, false, inl, inr, ◌↔◌, ◌⊎◌,
  List, [], ◌∷◌, ◌++◌, All, ltb, get_or, drop, take, if◌then◌else◌,
}
use powersuit.Base.Int.{ℤ, pos, negsuc, ltb_ℤ, pos_part, neg_part, -ℤ_parts}
use powersuit.Wire.{estop_bms_overvolt, estop_bms_undervolt, estop_thermal}
use powersuit.Bms.{Bms}
use powersuit.Bms.Trip.{Finding, findings, best}

pub data Fam : Type 0 where
  overvolt : Fam
  undervolt : Fam
  overtemp : Fam
  undertemp : Fam
  discharge : Fam
  charge : Fam

abbrev pub index : Fam → ℕ
index overvolt = 0
index undervolt = 1
index overtemp = 2
index undertemp = 3
index discharge = 4
index charge = 5

abbrev pub cause_of : Fam → ℕ
cause_of overvolt = estop_bms_overvolt
cause_of undervolt = estop_bms_undervolt
cause_of _ = estop_thermal

abbrev pub Any {ℓ} : {A : Type ℓ} → (A → Type 0) → List A → Type 0
Any P [] = ⊥
Any P (x ∷ xs) = P x ⊎ Any P xs

infix 50 ◌<ℤ◌
abbrev pub ◌<ℤ◌ : ℤ → ℤ → Type 0
a <ℤ b = pos_part a + neg_part b < pos_part b + neg_part a

-- Some cell is above 4.25 V or below 2.80 V, some temperature above 60 °C or below -10 °C, the current above
-- 120 A out of the pack or 20 A into it.
abbrev pub Critical : Fam → Bms → Type 0
Critical overvolt s = Any (λ v. 4250 < v) s.cell_mv
Critical undervolt s = Any (λ v. v < 2800) s.cell_mv
Critical overtemp s = Any (λ t. pos 6000 <ℤ t) s.ntc_cc
Critical undertemp s = Any (λ t. t <ℤ negsuc 999) s.ntc_cc
Critical discharge s = pos 12000 <ℤ s.curr_ca
Critical charge s = s.curr_ca <ℤ negsuc 1999

module _ {A : Type 0} (better : A → A → Bool) (beyond : A → Bool) where
  any : List A → Bool
  any [] = false
  any (x ∷ xs) = beyond x || any xs

  beyond-best :
      ((x m : A) → beyond (if better x m then x else m) ≡ (beyond m || beyond x))
      → (m : A) (xs : List A) → beyond (best better m xs) ≡ (beyond m || any xs)
  unfolding best any
  beyond-best h m [] = ground arith
  beyond-best h m (x ∷ xs) =
      beyond-best h (if better x m then x else m) xs
      ∙ ap (λ b. b || any xs) (h x m)
      ∙ or_assoc (beyond m) (beyond x) (any xs)
    where
      or_assoc : (a b c : Bool) → ((a || b) || c) ≡ (a || (b || c))
      or_assoc true b c = refl
      or_assoc false b c = refl

  any-Any :
      {P : A → Type 0}
      → ((x : A) → (beyond x ≡ true) ↔ P x)
      → (xs : List A) → (any xs ≡ true) ↔ Any P xs
  unfolding any
  any-Any h [] = (λ e. cc, λ n. absurd n)
  any-Any h (x ∷ xs) = either (beyond x) (any xs) (h x) (any-Any h xs)
    where
      either :
          {P Q : Type 0} (a b : Bool)
          → ((a ≡ true) ↔ P)
          → ((b ≡ true) ↔ Q)
          → ((a || b) ≡ true) ↔ (P ⊎ Q)
      either true b p q = (λ _. inl (p.0 refl), λ _. refl)
      either false b p q =
          (λ e. inr (q.0 e), λ s. elim s [ inl x ↦ absurd (no_false (p.1 x)) | inr y ↦ q.1 y ])
        where
          no_false : (false ≡ true) → ⊥
          no_false e = cc

-- The call of `bms_check` for a family.
abbrev no_finding : Finding
no_finding = record { fam = 6; crit = false; warns = false; cause = 0; fault = 0; detail = 0 }

pub finding_of : Fam → Bms → Finding
finding_of f s = get_or (findings s) (index f) no_finding

abbrev pub OthersThan : Fam → List Finding → Type 0
OthersThan f = All (λ (x : Finding). x.fam ≢ index f)

pub findings_split :
    (f : Fam) (s : Bms)
    → (pre : List Finding) × (post : List Finding) × (findings s ≡ pre ++ finding_of f s ∷ post)
      × OthersThan f pre
      × OthersThan f post
unfolding findings finding_of
findings_split overvolt s =
    (take 0 (findings s), drop 1 (findings s), refl, omega arith, omega arith)
findings_split undervolt s =
    (take 1 (findings s), drop 2 (findings s), refl, omega arith, omega arith)
findings_split overtemp s =
    (take 2 (findings s), drop 3 (findings s), refl, omega arith, omega arith)
findings_split undertemp s =
    (take 3 (findings s), drop 4 (findings s), refl, omega arith, omega arith)
findings_split discharge s =
    (take 4 (findings s), drop 5 (findings s), refl, omega arith, omega arith)
findings_split charge s = (take 5 (findings s), drop 6 (findings s), refl, omega arith, omega arith)

pub finding_of-fam :
    (f : Fam) (s : Bms) → ((finding_of f s).fam ≡ index f) × ((finding_of f s).cause ≡ cause_of f)
unfolding findings finding_of
finding_of-fam overvolt s = (refl, refl)
finding_of-fam undervolt s = (refl, refl)
finding_of-fam overtemp s = (refl, refl)
finding_of-fam undertemp s = (refl, refl)
finding_of-fam discharge s = (refl, refl)
finding_of-fam charge s = (refl, refl)

-- A search over all the temperatures: they begin with the first one.
ntc_any :
    (better : ℤ → ℤ → Bool) (beyond : ℤ → Bool) (xs : List ℤ)
    → ((x m : ℤ) → beyond (if better x m then x else m) ≡ (beyond m || beyond x))
    → beyond (pos 0) ≡ false
    → beyond (best better (get_or xs 0 (pos 0)) (drop 1 xs)) ≡ any better beyond xs
unfolding any best
ntc_any better beyond [] h z = z
ntc_any better beyond (x ∷ xs) h z = beyond-best better beyond h x xs

below_either : (k x m : ℕ) → ltb (if ltb x m then x else m) k ≡ (ltb m k || ltb x k)
below_either k x m = ground arith

above_either : (k x m : ℕ) → ltb k (if ltb m x then x else m) ≡ (ltb k m || ltb k x)
above_either k x m = ground arith

colder_either : (k x m : ℤ) → ltb_ℤ (if ltb_ℤ x m then x else m) k ≡ (ltb_ℤ m k || ltb_ℤ x k)
colder_either k x m = ground arith

hotter_either : (k x m : ℤ) → ltb_ℤ k (if ltb_ℤ m x then x else m) ≡ (ltb_ℤ k m || ltb_ℤ k x)
hotter_either k x m = ground arith

along : {P : Type 0} {a b : Bool} → a ≡ b → (b ≡ true) ↔ P → (a ≡ true) ↔ P
along e (to, from) = (λ h. to (sym e ∙ h), λ p. e ∙ from p)

pub finding_of-Critical : (f : Fam) (s : Bms) → ((finding_of f s).crit ≡ true) ↔ Critical f s
unfolding findings finding_of
finding_of-Critical overvolt s =
    along (beyond-best (λ x m. ltb m x) (λ x. ltb 4250 x) (above_either 4250) 0 s.cell_mv)
      (any-Any (λ x m. ltb m x) (λ x. ltb 4250 x) (λ x. ground arith) s.cell_mv)
finding_of-Critical undervolt s =
    along (beyond-best (λ x m. ltb x m) (λ x. ltb x 2800) (below_either 2800) 0xFFFF s.cell_mv)
      (any-Any (λ x m. ltb x m) (λ x. ltb x 2800) (λ x. ground arith) s.cell_mv)
finding_of-Critical overtemp s =
    along
      (ntc_any (λ x m. ltb_ℤ m x) (λ x. ltb_ℤ (pos 6000) x) s.ntc_cc (hotter_either (pos 6000))
        refl)
      (any-Any (λ x m. ltb_ℤ m x) (λ x. ltb_ℤ (pos 6000) x) (λ x. ground arith) s.ntc_cc)
finding_of-Critical undertemp s =
    along
      (ntc_any (λ x m. ltb_ℤ x m) (λ x. ltb_ℤ x (negsuc 999)) s.ntc_cc (colder_either (negsuc 999))
        refl)
      (any-Any (λ x m. ltb_ℤ x m) (λ x. ltb_ℤ x (negsuc 999)) (λ x. ground arith) s.ntc_cc)
finding_of-Critical discharge s = (λ h. ground arith, λ h. ground arith)
finding_of-Critical charge s = (
  λ h. ground (arith, -ℤ_parts (pos 0) s.curr_ca),
  λ h. ground (arith, -ℤ_parts (pos 0) s.curr_ca),
)
