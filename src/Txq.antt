-- ===== src/Txq.antt =====
-- firmware/components/ps_can: the transmit queue of ps_can_txq.c, eight rings of sixteen slots.
pub mod Refine
use powersuit.Base.{
  ℕ, zero, suc, ◌+◌, ◌-◌, ◌%◌, Bool, true, false, ◌||◌, Option, none, some, List, [], ◌∷◌, get_or,
  set, replicate, u8, leb, ltb, if◌then◌else◌,
}

-- `PS_CAN_TXQ_CLASSES` and `PS_CAN_TXQ_DEPTH`
abbrev pub classes : ℕ
classes = 8

abbrev pub depth : ℕ
depth = 16

-- `ps_can_txq_t`
pub record Txq : Type 0 where
  pub ring : List (List ℕ)
  pub head : List ℕ
  pub count : List ℕ

-- `ps_can_txq_init`
unfoldable pub init : Txq
init = record {
  ring = replicate classes (replicate depth 0);
  head = replicate classes 0;
  count = replicate classes 0;
}

abbrev pub count_of : Txq → ℕ → ℕ
count_of q cls = get_or q.count cls 0

abbrev pub head_of : Txq → ℕ → ℕ
head_of q cls = get_or q.head cls 0

abbrev pub ring_of : Txq → ℕ → List ℕ
ring_of q cls = get_or q.ring cls []

-- `ps_can_txq_push`
unfoldable pub push : Txq → ℕ → ℕ → Txq × Bool
push q cls item =
    if leb classes cls || leb depth (count_of q cls)
    then (q, false)
    else let tail = u8 ((head_of q cls + count_of q cls) % depth) in
      (
        record q {
          ring = set q.ring cls (set (ring_of q cls) tail item);
          count = set q.count cls (u8 (count_of q cls + 1));
        },
        true,
      )

-- The body of the loop of `ps_can_txq_pop` for the class that is not empty.
unfoldable pub take_from : Txq → ℕ → Txq × Option ℕ
take_from q cls = (
  record q {
    head = set q.head cls (u8 ((head_of q cls + 1) % depth));
    count = set q.count cls (count_of q cls - 1);
  },
  some (get_or (ring_of q cls) (head_of q cls) 0),
)

-- The loop, at the class `cls` with `n` classes left.
unfoldable pub pop_loop : ℕ → ℕ → Txq → Txq × Option ℕ
unfolding take_from
pop_loop zero cls q = (q, none)
pop_loop (suc n) cls q =
    let rest = pop_loop n (cls + 1) q in if ltb 0 (count_of q cls) then take_from q cls else rest

-- `ps_can_txq_pop`; `none` is the -1.
unfoldable pub pop : Txq → Txq × Option ℕ
unfolding pop_loop
pop q = pop_loop classes 0 q

unfoldable pub len_loop : ℕ → ℕ → ℕ → Txq → ℕ
len_loop zero cls n q = n
len_loop (suc k) cls n q = len_loop k (cls + 1) (n + count_of q cls) q

-- `ps_can_txq_len`
unfoldable pub len : Txq → ℕ
unfolding len_loop
len q = len_loop classes 0 0 q
