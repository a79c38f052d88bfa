-- ===== src/Queue/Refine.antt =====
-- The queue of queue.c is a bounded FIFO: each function against its effect on a list.
use native.Mathlib.Nat.{mod-add-mod}
use macac_os.Base.{
  ℕ, zero, suc, ◌+◌, ◌-◌, ◌%◌, ◌^◌, ◌≤◌, ◌<◌, ◌≡◌, refl, sym, ap, ap₂, ◌∙◌, inl, inr, Bool, true,
  false, List, [], ◌∷◌, ◌++◌, returns, arith, ◌==◌, if◌then◌else◌, length, get_or, set, length-set,
  get_elem?-eq-get_or, Bool-cases, eq_of_==,
}
use macac_os.Queue.{
  Queue, u32, create_queue, enqueue, dequeue, is_in_queue, is_in_queue_from, empty_queue_error,
  read_at, mod_size,
}
use macac_os.Queue.Ring.{slots, length-slots, slots-set_last}

-- The representation invariant. The bound keeps `unsigned int` sums from wrapping.
pub record IsValid (q : Queue) : Type 0 where
  pub storage : q.size ≤ length q.elements
  pub bounded : q.size ≤ 2 ^ 31
  pub read_in : q.read_pos < q.size
  pub length_in : q.length ≤ q.size
  pub write_behind : q.write_pos ≡ (q.read_pos + q.length) % q.size

-- The elements that wait, the next to leave first.
abbrev pub waiting : Queue → List ℕ
waiting q = slots q.elements q.size q.read_pos q.length

pub length-waiting : (q : Queue) → length (waiting q) ≡ q.length
length-waiting q = length-slots q.elements q.size q.read_pos q.length

-- A FIFO of at most `n` elements, which drops what does not fit.
abbrev pub fifo_put : ℕ → ℕ → List ℕ → List ℕ
fifo_put n x xs = if length xs == n then xs else xs ++ x ∷ []

abbrev pub fifo_head : List ℕ → ℕ
fifo_head [] = empty_queue_error
fifo_head (x ∷ _) = x

abbrev pub fifo_tail : List ℕ → List ℕ
fifo_tail [] = []
fifo_tail (_ ∷ xs) = xs

-- The queue that `enqueue` leaves behind when there is room.
abbrev pub stored : ℕ → Queue → Queue
stored x q = record q {
  elements = set q.elements q.write_pos x;
  write_pos = u32 (q.write_pos + 1) % q.size;
  length = u32 (q.length + 1);
}

enqueue-stored :
    {q : Queue} (x : ℕ) → IsValid q → q.length < q.size → enqueue x q ≡ returns tt (stored x q)
unfolding enqueue
enqueue-stored {q} x v h = ground (
  arith,
  length-set q.elements q.write_pos x,
  get_elem?-eq-get_or (set q.elements q.write_pos x) (u32 (q.write_pos + 1) % q.size) 0,
  get_elem?-eq-get_or (set q.elements q.write_pos x) q.read_pos 0,
)

-- Index sums do not wrap.
u32_write : {q : Queue} → IsValid q → (k : ℕ) → k ≤ 1 → u32 (q.write_pos + k) ≡ q.write_pos + k
u32_write v k h = omega arith

stored-IsValid : {q : Queue} (x : ℕ) → IsValid q → q.length < q.size → IsValid (stored x q)
stored-IsValid {q} x v h = record {
  storage = omega (arith, length-set q.elements q.write_pos x, v.storage);
  bounded = v.bounded;
  read_in = v.read_in;
  length_in = omega (arith, v.length_in, v.bounded);
  write_behind =
      ap (λ (m : ℕ). m % q.size) (u32_write v 1 (omega arith))
      ∙ ap (λ (w : ℕ). (w + 1) % q.size) v.write_behind
      ∙ mod-add-mod (q.read_pos + q.length) q.size 1
      ∙ ap (λ (m : ℕ). m % q.size) (omega (arith, v.bounded));
}

waiting-stored :
    {q : Queue} (x : ℕ) → IsValid q → q.length < q.size → waiting (stored x q) ≡ waiting q ++ x ∷ []
waiting-stored {q} x v h =
    let e : u32 (q.length + 1) ≡ suc q.length = omega (arith, v.bounded) in
    ap₂ (λ k w. slots (set q.elements w x) q.size q.read_pos k) e v.write_behind
    ∙ slots-set_last q.elements q.size q.read_pos q.length x v.read_in h v.storage

-- On a valid queue enqueue keeps the invariant, and appends the element unless the queue is full.
pub enqueue-put :
    {q : Queue} (x : ℕ)
    → IsValid q
    → (q' : Queue) × (enqueue x q ≡ returns tt q')
      × IsValid q'
      × (waiting q' ≡ fifo_put q.size x (waiting q))
      × (q'.size ≡ q.size)
unfolding enqueue
enqueue-put {q} x v = elim (Bool-cases (q.length == q.size)) [
  | inl full ↦ (q, rw full, v, ground (arith, length-waiting q), refl)
  | inr room ↦ (
    stored x q,
    enqueue-stored x v (ground arith),
    stored-IsValid x v (ground arith),
    ground (arith, length-waiting q, waiting-stored x v),
    refl,
  )
]

-- The queue that `dequeue` leaves behind when there is an element.
abbrev pub taken : Queue → Queue
taken q = record q { read_pos = u32 (q.read_pos + 1) % q.size; length = q.length - 1 }

dequeue-taken :
    {q : Queue}
    → IsValid q
    → 0 < q.length
    → dequeue q ≡ returns (get_or q.elements q.read_pos 0) (taken q)
unfolding dequeue
dequeue-taken {q} v h = ground (
  arith,
  get_elem?-eq-get_or q.elements q.read_pos 0,
  get_elem?-eq-get_or q.elements (u32 (q.read_pos + 1) % q.size) 0,
)

taken-IsValid : {q : Queue} → IsValid q → 0 < q.length → IsValid (taken q)
taken-IsValid {q} v h = record {
  storage = v.storage;
  bounded = v.bounded;
  read_in = omega (arith, v.read_in);
  length_in = omega (arith, v.length_in);
  write_behind =
      v.write_behind
      ∙ ap (λ (m : ℕ). m % q.size) (omega arith)
      ∙ sym (mod-add-mod (q.read_pos + 1) q.size (q.length - 1))
      ∙ ap (λ (m : ℕ). (m % q.size + (q.length - 1)) % q.size) (omega arith);
}

pub slots-pos :
    (es : List ℕ) (n r k : ℕ)
    → 0 < k
    → slots es n r k ≡ get_or es r 0 ∷ slots es n ((r + 1) % n) (k - 1)
slots-pos es n r zero h = absurd (omega arith)
slots-pos es n r (suc k) h = ap (λ j. get_or es r 0 ∷ slots es n ((r + 1) % n) j) (omega arith)

waiting-taken :
    {q : Queue}
    → IsValid q
    → 0 < q.length
    → waiting q ≡ get_or q.elements q.read_pos 0 ∷ waiting (taken q)
waiting-taken {q} v h =
    slots-pos q.elements q.size q.read_pos q.length h
    ∙ ap (λ r. get_or q.elements q.read_pos 0 ∷ slots q.elements q.size (r % q.size) (q.length - 1))
        (omega (arith, v.read_in, v.bounded))

-- On a valid queue dequeue keeps the invariant, returns the head (the error code on an empty queue)
-- and leaves the tail.
pub dequeue-head :
    {q : Queue}
    → IsValid q
    → (q' : Queue) × (dequeue q ≡ returns (fifo_head (waiting q)) q')
      × IsValid q'
      × (waiting q' ≡ fifo_tail (waiting q))
      × (q'.size ≡ q.size)
unfolding dequeue
dequeue-head {q} v = elim (Bool-cases (q.length == 0)) [
  | inl none_left ↦
      let e : waiting q ≡ [] =
        ap (slots q.elements q.size q.read_pos) (eq_of_== q.length 0 none_left) in
      (q, rw none_left (rw e), v, rw e, refl)
  | inr some_left ↦
      let pos : 0 < q.length = ground arith in
      let e = waiting-taken v pos in
      (taken q, rw e (dequeue-taken v pos), taken-IsValid v pos, rw e, refl)
]

abbrev pub contains : ℕ → List ℕ → Bool
contains x [] = false
contains x (y ∷ ys) = if y == x then true else contains x ys

is_in_queue_from-contains :
    {q : Queue} (left i x : ℕ)
    → IsValid q
    → i + left ≤ q.size
    → is_in_queue_from left i x q
      ≡ returns (contains x (slots q.elements q.size ((q.read_pos + i) % q.size) left)) q
unfolding is_in_queue_from read_at mod_size
is_in_queue_from-contains zero i x v h = refl
is_in_queue_from-contains {q} (suc left) i x v h = ground (
  arith,
  is_in_queue_from-contains left (i + 1) x v (omega arith),
  get_elem?-eq-get_or q.elements (u32 (q.read_pos + i) % q.size) 0,
  mod-add-mod (q.read_pos + i) q.size 1,
)

-- On a valid queue is_in_queue decides whether the value waits in the queue, and changes nothing.
pub is_in_queue-contains :
    {q : Queue} (x : ℕ) → IsValid q → is_in_queue x q ≡ returns (contains x (waiting q)) q
unfolding is_in_queue
is_in_queue-contains {q} x v =
    is_in_queue_from-contains q.length 0 x v (omega (arith, v.length_in))
    ∙ ap (λ (r : ℕ). returns (contains x (slots q.elements q.size r q.length)) q)
        (grind (arith, v.read_in))

-- Whatever a queue held, create_queue with a positive size of at most 2^31 and a block that is
-- large enough makes it empty and valid.
pub create_queue-empty :
    (block : List ℕ) (size : ℕ) (q : Queue)
    → 0 < size
    → size ≤ 2 ^ 31
    → size ≤ length block
    → (q' : Queue) × (create_queue block size q ≡ returns tt q')
      × IsValid q'
      × (waiting q' ≡ [])
      × (q'.size ≡ size)
unfolding create_queue
create_queue-empty block size q h small room = (
  record { elements = block; read_pos = 0; write_pos = 0; length = 0; size = size },
  ground arith,
  record {
    storage = room;
    bounded = small;
    read_in = h;
    length_in = omega arith;
    write_behind = omega arith;
  },
  refl,
  refl,
)
