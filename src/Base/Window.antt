-- ===== src/Base/Window.antt =====
-- A stretch of a circular buffer as a list, at any capacity.
use native.Mathlib.Nat.{mod-add-mod, mod-eq_of_lt, mod-eq-sub-mod}
use native.Mathlib.Decide.{dec_lt}
use Prim.Native.Nat.{ℕ, zero, suc, ◌+◌, ◌-◌, ◌%◌, ◌<◌}
use mathlib.Core.Path.{◌≡◌, refl, sym, ap, ap₂, ◌∙◌}
use mathlib.Core.Logic.{◌≢◌}
use mathlib.Core.List.{List, [], ◌∷◌, ◌++◌}
use native.Mathlib.Omega.{arith}
use powersuit.Base.Lists.{length, get_or, set, get_or-set_self, get_or-set_ne}

module _ {ℓ} {A : Type ℓ} (d : A) (cap : ℕ) where
  -- The `n` elements from slot `h` on, going round at `cap`.
  abbrev pub window : List A → ℕ → ℕ → List A
  window row h zero = []
  window row h (suc n) = get_or row h d ∷ window row ((h + 1) % cap) n

  pub length-window : (row : List A) (h n : ℕ) → length (window row h n) ≡ n
  length-window row h zero = refl
  length-window row h (suc n) = ap suc (length-window row ((h + 1) % cap) n)

  pub window-pos :
      (row : List A) (h n : ℕ)
      → 0 < n
      → window row h n ≡ get_or row h d ∷ window row ((h + 1) % cap) (n - 1)
  window-pos row h zero p = absurd (omega arith)
  window-pos row h (suc n) p = ap (λ k. window row h (suc k)) (omega arith)

  -- Fewer than `cap` steps round the buffer do not come back to the start.
  step-ne : (h n : ℕ) → h < cap → suc n < cap → (h + suc n) % cap ≢ h
  step-ne h n hh hn e = elim (dec_lt (h + suc n) cap) [
    | yes p ↦ omega (arith, mod-eq_of_lt p)
    | no p ↦ omega (
      arith,
      mod-eq-sub-mod {n = h + suc n} {m = cap} (omega arith),
      mod-eq_of_lt {n = h + suc n - cap} {m = cap} (omega arith),
    )
  ]

  window-set-suc :
      (row : List A) (x : A) (n h i : ℕ)
      → length row ≡ cap
      → h < cap
      → n < cap
      → i ≡ (h + n) % cap
      → window (set row i x) h (suc n) ≡ window row h n ++ x ∷ []
  window-set-suc row x zero h i l hh hn e =
      let plain : h + 0 ≡ h = omega arith in
      let at_h : i ≡ h = e ∙ ap (λ k. k % cap) plain ∙ mod-eq_of_lt hh in
      ap (λ k. get_or (set row k x) h d ∷ []) at_h
      ∙ ap (λ v. v ∷ []) (get_or-set_self row h x d (omega arith))
  window-set-suc row x (suc n) h i l hh hn e =
      ap₂ ◌∷◌ (get_or-set_ne row x d (omega (arith, step-ne h n hh hn)))
        (window-set-suc row x n ((h + 1) % cap) i l (omega arith) (omega arith) (e ∙ around))
    where
      around : (h + suc n) % cap ≡ ((h + 1) % cap + n) % cap
      around =
          (let s : h + suc n ≡ h + 1 + n = omega arith in ap (λ k. k % cap) s)
          ∙ sym (mod-add-mod (h + 1) cap n)

  -- A write at the slot just past the window appends to it.
  pub window-set :
      (row : List A) (x : A) (n h i : ℕ)
      → length row ≡ cap
      → h < cap
      → n < cap
      → i ≡ (h + n) % cap
      → window (set row i x) h (n + 1) ≡ window row h n ++ x ∷ []
  window-set row x n h i l hh hn e =
      (let one : n + 1 ≡ suc n = omega arith in ap (window (set row i x) h) one)
      ∙ window-set-suc row x n h i l hh hn e
