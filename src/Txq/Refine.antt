-- ===== src/Txq/Refine.antt =====
-- ps_can_txq.c against eight queues: push appends to the queue of a class, pop takes the oldest item
-- of the first class that has one.
use native.Mathlib.Decide.{ℕ_discrete}
use powersuit.Base.{
  ℕ, zero, suc, ◌+◌, ◌-◌, ◌%◌, ◌≤◌, ◌<◌, ◌≡◌, ◌≢◌, inl, inr, refl, ap, ap₂, sym, subst, u8, ◌∙◌,
  arith, true, false, ◌&&◌, ◌||◌, Option, none, some, List, [], ◌∷◌, ◌++◌, length, get_or, set,
  replicate, length-set, get_or-set_self, get_or-set_ne, ltb, leb, Bool-cases,
}
use powersuit.Txq.{Txq, init, push, pop_loop, pop, len_loop, len, count_of, head_of, ring_of}
use powersuit.Base.Window.{length-window, window-pos, window-set}
use powersuit.Base.Window

-- One class of a queue in order.
pub record RowIsValid (q : Txq) (cls : ℕ) : Type 0 where
  pub slots : length (ring_of q cls) ≡ 16
  pub head_in : head_of q cls < 16
  pub count_in : count_of q cls ≤ 16

pub record IsValid (q : Txq) : Type 0 where
  pub rings : length q.ring ≡ 8
  pub heads : length q.head ≡ 8
  pub counts : length q.count ≡ 8
  pub rows : (cls : ℕ) → cls < 8 → RowIsValid q cls

-- The items of a class, oldest first.
abbrev pub items : Txq → ℕ → List ℕ
items q cls = Window.window 0 16 (ring_of q cls) (head_of q cls) (count_of q cls)

get_or-replicate : {A : Type 0} (n i : ℕ) (a d : A) → i < n → get_or (replicate n a) i d ≡ a
get_or-replicate zero i a d h = absurd (omega arith)
get_or-replicate (suc n) zero a d h = refl
get_or-replicate (suc n) (suc i) a d h = get_or-replicate n i a d (omega arith)

-- A new queue is valid, and every class is empty.
pub init-IsValid : IsValid init × ((cls : ℕ) → cls < 8 → items init cls ≡ [])
unfolding init
init-IsValid = (
  record {
    rings = refl;
    heads = refl;
    counts = refl;
    rows = λ cls h. record {
      slots = ap length (get_or-replicate 8 cls (replicate 16 0) [] h);
      head_in = omega (arith, get_or-replicate {A = ℕ} 8 cls 0 0 h);
      count_in = omega (arith, get_or-replicate {A = ℕ} 8 cls 0 0 h);
    };
  },
  λ cls h. ap (Window.window 0 16 _ _) (get_or-replicate {A = ℕ} 8 cls 0 0 h),
)

module _ {q : Txq} (v : IsValid q) (cls item : ℕ) (c : cls < 8) (room : count_of q cls < 16) where
  -- What an accepted push leaves.
  abbrev pushed : Txq
  pushed = record q {
    ring = set q.ring cls (set (ring_of q cls) (u8 ((head_of q cls + count_of q cls) % 16)) item);
    count = set q.count cls (u8 (count_of q cls + 1));
  }

  ring_of-pushed :
      ring_of pushed cls ≡ set (ring_of q cls) (u8 ((head_of q cls + count_of q cls) % 16)) item
  ring_of-pushed = get_or-set_self q.ring cls _ [] (omega (arith, v.rings))

  count_of-pushed : count_of pushed cls ≡ count_of q cls + 1
  count_of-pushed =
      omega
        (arith, get_or-set_self q.count cls (u8 (count_of q cls + 1)) 0 (omega (arith, v.counts)))

  items-pushed : items pushed cls ≡ items q cls ++ item ∷ []
  items-pushed =
      ap₂ (λ r n. Window.window 0 16 r (head_of q cls) n) ring_of-pushed count_of-pushed
      ∙ window-set 0 16 (ring_of q cls) item (count_of q cls) (head_of q cls) _ (v.rows cls c).slots
          (v.rows cls c).head_in room (omega arith)

  rows_other :
      (j : ℕ) → j ≢ cls → (ring_of pushed j ≡ ring_of q j) × (count_of pushed j ≡ count_of q j)
  rows_other j n =
      (get_or-set_ne q.ring _ [] (λ e. n (sym e)), get_or-set_ne q.count _ 0 (λ e. n (sym e)))

  items-pushed_ne : (j : ℕ) → j ≢ cls → items pushed j ≡ items q j
  items-pushed_ne j n =
      ap₂ (λ r k. Window.window 0 16 r (head_of q j) k) (rows_other j n).0 (rows_other j n).1

  pushed-row : (j : ℕ) → j < 8 → RowIsValid pushed j
  pushed-row j h = elim (ℕ_discrete j cls) [
    | yes e ↦ subst (RowIsValid pushed) (sym e) (record {
      slots = ap length ring_of-pushed ∙ length-set (ring_of q cls) _ item ∙ (v.rows cls c).slots;
      head_in = (v.rows cls c).head_in;
      count_in = omega (arith, count_of-pushed);
    })
    | no n ↦ record {
      slots = ap length (rows_other j n).0 ∙ (v.rows j h).slots;
      head_in = (v.rows j h).head_in;
      count_in = omega (arith, rows_other j n, (v.rows j h).count_in);
    }
  ]

  pushed-IsValid : IsValid pushed
  pushed-IsValid = record {
    rings = length-set q.ring cls _ ∙ v.rings;
    heads = v.heads;
    counts = length-set q.count cls _ ∙ v.counts;
    rows = pushed-row;
  }

-- A push to a valid queue is accepted exactly when the class exists and holds fewer than 16 items. If it is refused
-- the queue is unchanged; if it is accepted the item is the last of its class and the other classes
-- are as they were. The queue stays valid.
pub push_refines :
    {q : Txq} (cls item : ℕ)
    → IsValid q
    → let out = push q cls item in
      (out.1 ≡ (ltb cls 8 && ltb (length (items q cls)) 16))
      × (out.1 ≡ false → out.0 ≡ q)
      × (out.1 ≡ true
          → (items out.0 cls ≡ items q cls ++ item ∷ [])
            × ((j : ℕ) → j ≢ cls → items out.0 j ≡ items q j))
      × IsValid out.0
unfolding push
push_refines {q} cls item v = elim (Bool-cases (leb 8 cls || leb 16 (count_of q cls))) [
  | inl full ↦ rw full (
    ground (arith, length-window 0 16 (ring_of q cls) (head_of q cls) (count_of q cls)),
    λ _. refl,
    λ h. cc,
    v,
  )
  | inr ok ↦ rw ok (
    ground (arith, length-window 0 16 (ring_of q cls) (head_of q cls) (count_of q cls)),
    λ h. cc,
    λ h. (
      items-pushed v cls item (ground arith) (ground arith),
      items-pushed_ne v cls item (ground arith) (ground arith),
    ),
    pushed-IsValid v cls item (ground arith) (ground arith),
  )
]

-- Where a pop looks: the items of a class are none, or one at the head and the rest.
items-zero : (q : Txq) (cls : ℕ) → count_of q cls ≡ 0 → items q cls ≡ []
items-zero q cls e = rw e

-- What it means to pop the class `k`: every class before it is empty, its oldest item comes out, and
-- the rest of it and the other classes stay.
pub record Popped (q q' : Txq) (x k : ℕ) : Type 0 where
  pub class_in : k < 8
  pub before : (j : ℕ) → j < k → items q j ≡ []
  pub oldest : items q k ≡ x ∷ items q' k
  pub others : (j : ℕ) → j ≢ k → items q' j ≡ items q j

module _ {q : Txq} (v : IsValid q) (cls : ℕ) (c : cls < 8) (some_wait : 0 < count_of q cls) where
  abbrev taken : Txq
  taken = record q {
    head = set q.head cls (u8 ((head_of q cls + 1) % 16));
    count = set q.count cls (count_of q cls - 1);
  }

  head_of-taken : head_of taken cls ≡ (head_of q cls + 1) % 16
  head_of-taken =
      omega (
        arith,
        get_or-set_self q.head cls (u8 ((head_of q cls + 1) % 16)) 0 (omega (arith, v.heads)),
      )

  count_of-taken : count_of taken cls ≡ count_of q cls - 1
  count_of-taken = get_or-set_self q.count cls (count_of q cls - 1) 0 (omega (arith, v.counts))

  taken_other :
      (j : ℕ) → j ≢ cls → (head_of taken j ≡ head_of q j) × (count_of taken j ≡ count_of q j)
  taken_other j n =
      (get_or-set_ne q.head _ 0 (λ e. n (sym e)), get_or-set_ne q.count _ 0 (λ e. n (sym e)))

  items-taken : items q cls ≡ get_or (ring_of q cls) (head_of q cls) 0 ∷ items taken cls
  items-taken =
      window-pos 0 16 (ring_of q cls) (head_of q cls) (count_of q cls) some_wait
      ∙ sym (
          ap₂
            (λ h n.
              get_or (ring_of q cls) (head_of q cls) 0 ∷ Window.window 0 16 (ring_of q cls) h n)
            head_of-taken count_of-taken)

  items-taken_ne : (j : ℕ) → j ≢ cls → items taken j ≡ items q j
  items-taken_ne j n =
      ap₂ (λ h k. Window.window 0 16 (ring_of q j) h k) (taken_other j n).0 (taken_other j n).1

  taken-row : (j : ℕ) → j < 8 → RowIsValid taken j
  taken-row j h = elim (ℕ_discrete j cls) [
    | yes e ↦ subst (RowIsValid taken) (sym e) (record {
      slots = (v.rows cls c).slots;
      head_in = omega (arith, head_of-taken);
      count_in = omega (arith, count_of-taken, (v.rows cls c).count_in);
    })
    | no n ↦ record {
      slots = (v.rows j h).slots;
      head_in = omega (arith, taken_other j n, (v.rows j h).head_in);
      count_in = omega (arith, taken_other j n, (v.rows j h).count_in);
    }
  ]

  taken-IsValid : IsValid taken
  taken-IsValid = record {
    rings = v.rings;
    heads = length-set q.head cls _ ∙ v.heads;
    counts = length-set q.count cls _ ∙ v.counts;
    rows = taken-row;
  }

-- What a pop may answer: nothing where every class is empty and the queue is unchanged, else an item.
abbrev pub PopSpec : Txq → Txq × Option ℕ → Type 0
PopSpec q (q', none) = (q' ≡ q) × ((j : ℕ) → j < 8 → items q j ≡ [])
PopSpec q (q', some x) = ((k : ℕ) × Popped q q' x k) × IsValid q'

pop_loop-spec :
    (n cls : ℕ) {q : Txq}
    → IsValid q
    → cls + n ≡ 8
    → ((j : ℕ) → j < cls → items q j ≡ [])
    → PopSpec q (pop_loop n cls q)
unfolding pop_loop
pop_loop-spec zero cls v e empty = (refl, λ j h. empty j (omega arith))
pop_loop-spec (suc n) cls {q} v e empty = elim (Bool-cases (ltb 0 (count_of q cls))) [
  | inl wait ↦ rw wait (
    (
      cls,
      record {
        class_in = omega arith;
        before = empty;
        oldest = items-taken v cls (omega arith) (ground arith);
        others = items-taken_ne v cls (omega arith) (ground arith);
      },
    ),
    taken-IsValid v cls (omega arith) (ground arith),
  )
  | inr none_waits ↦ rw none_waits (
      pop_loop-spec n (cls + 1) v (omega arith) (λ j h. elim (ℕ_discrete j cls) [
        | yes same ↦ rw same (items-zero q cls (ground arith))
        | no ne ↦ empty j (omega arith)
      ]))
]

-- From a valid queue a pop takes the oldest item of the first class that has one, SAFETY first, and leaves the rest and
-- the other classes as they were; it answers nothing, and changes nothing, only when every class is
-- empty. The queue stays valid.
pub pop_refines : {q : Txq} → IsValid q → PopSpec q (pop q)
unfolding pop
pop_refines v = pop_loop-spec 8 0 v refl (λ j h. absurd (omega arith))

-- The frames that wait in the classes from `cls` on, `k` of them.
abbrev waiting : Txq → ℕ → ℕ → ℕ
waiting q zero cls = 0
waiting q (suc k) cls = length (items q cls) + waiting q k (cls + 1)

len_loop-waiting : (k cls n : ℕ) (q : Txq) → len_loop k cls n q ≡ n + waiting q k cls
unfolding len_loop
len_loop-waiting zero cls n q = omega arith
len_loop-waiting (suc k) cls n q = omega (
  arith,
  len_loop-waiting k (cls + 1) (n + count_of q cls) q,
  length-window 0 16 (ring_of q cls) (head_of q cls) (count_of q cls),
)

-- The length is the number of items that wait in the eight classes.
pub len-waiting : (q : Txq) → len q ≡ waiting q 8 0
unfolding len
len-waiting q = omega (arith, len_loop-waiting 8 0 0 q)

first_class :
    (q : Txq) {x : ℕ} {rest : List ℕ} (out : Txq × Option ℕ)
    → items q 0 ≡ x ∷ rest
    → PopSpec q out
    → out.1 ≡ some x
first_class q (q', none) e s = cc (s.1 0 (omega arith))
first_class q (q', some y) e s = elim (ℕ_discrete s.0.0 0) [
  | yes z ↦ cc (s.0.1.oldest, z, e, ap (items q) z)
  | no n ↦ cc (s.0.1.before 0 (omega arith))
]

-- In a valid queue a SAFETY frame that is queued when none waits is the next to go, whatever waits in the other
-- classes.
pub push-pop_safety :
    {q : Txq} (item : ℕ) → IsValid q → items q 0 ≡ [] → (pop (push q 0 item).0).1 ≡ some item
push-pop_safety {q} item v none_wait =
    let (accepted, _, done, v') = push_refines 0 item v in
    first_class (push q 0 item).0 (pop (push q 0 item).0)
      ((done (rw accepted (rw none_wait))).0 ∙ ap (λ l. l ++ item ∷ []) none_wait) (pop_refines v')
