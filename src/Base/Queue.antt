-- ===== src/Base/Queue.antt =====
-- Bounded queues: the list they hold, and what the firmware relies on in those of the real-time kernel
-- (`xQueueSend` and `xQueueReceive` without waiting, and `uxQueueMessagesWaiting`).
use mathlib.Core.Path.{◌≡◌}
use mathlib.Core.Option.{Option, none, some}
use mathlib.Core.List.{List, [], ◌∷◌, ◌++◌}
use Prim.Native.Nat.{ℕ, ◌≤◌, ◌<◌}
use powersuit.Base.Lists.{length, drop}
use powersuit.Base.Tests.{ltb, if◌then◌else◌}

-- The calls: a send is `none` when it is refused, a receive is `none` when nothing waits.
pub record Ops (Q A : Type 0) : Type 0 where
  pub send : Q → A → Option Q
  pub receive : Q → Option (A × Q)
  pub waiting : Q → ℕ

-- Their documented behaviour: first in, first out, up to a fixed capacity.
pub record Laws {Q A : Type 0} (k : Ops Q A) : Type 0 where
  pub view : Q → List A
  pub capacity : Q → ℕ
  pub send_full : (q : Q) (x : A) → capacity q ≤ length (view q) → k.send q x ≡ none
  pub send_room :
      (q : Q) (x : A)
      → length (view q) < capacity q
      → (q' : Q) × (k.send q x ≡ some q')
        × (view q' ≡ view q ++ x ∷ [])
        × (capacity q' ≡ capacity q)
  pub receive_empty : (q : Q) → view q ≡ [] → k.receive q ≡ none
  pub receive_first :
      (q : Q) {x : A} {xs : List A}
      → view q ≡ x ∷ xs
      → (q' : Q) × (k.receive q ≡ some (x, q')) × (view q' ≡ xs) × (capacity q' ≡ capacity q)
  pub waiting_view : (q : Q) → k.waiting q ≡ length (view q)

module _ {A : Type 0} (cap : ℕ) where
  -- One element more in a queue that drops its oldest element when it is full.
  abbrev pub put : List A → A → List A
  put q x = (if ltb (length q) cap then q else drop 1 q) ++ x ∷ []

  abbrev pub put_all : List A → List A → List A
  put_all q [] = q
  put_all q (x ∷ xs) = put_all (put q x) xs
