-- ===== src/Fifo/Refine.antt =====
-- A well-formed FIFO behaves as the queue of the bytes between its tail and its head.
use embed_template.Prelude.{
  ℕ, zero, suc, ◌+◌, ◌-◌, ◌%◌, ◌<◌, ◌≤◌, ◌≡◌, refl, sym, ◌∙◌, ap, ap₂, ◌≢◌, List, [], ◌∷◌, ◌++◌,
  arith,
}
use embed_template.Prelude.{
  length, get_or, set, replicate, length-set, get_or-set_self, get_or-set_ne, ◌==◌, Bool-cases, inl,
  inr, ℕ_discrete,
}
use embed_template.Prelude.Bits.{bit_and_mask}
use embed_template.Fifo.{Fifo, fifo_size, next, fifo_init, fifo_push, fifo_pop, fifo_is_empty}
use embed_template.Fifo.Queue
use embed_template.Fifo.Queue.{Queue, Op, push, pop, test_empty, Reply, done, value, flag}

pub next_lem : (i : ℕ) → next i ≡ (i + 1) % 256
unfolding next
next_lem i = bit_and_mask 8 _ ∙ omega arith

-- How many bytes lie between two indices, going round.
abbrev pub distance : ℕ → ℕ → ℕ
distance tail head = (head + 256 - tail) % 256

-- The `n` bytes from index `i` on.
unfoldable pub window : List ℕ → ℕ → ℕ → List ℕ
window buffer i zero = []
window buffer i (suc n) = get_or buffer i 0 ∷ window buffer ((i + 1) % 256) n

pub length-window : (buffer : List ℕ) (i n : ℕ) → length (window buffer i n) ≡ n
unfolding window
length-window buffer i zero = refl
length-window buffer i (suc n) = ap suc (length-window buffer ((i + 1) % 256) n)

-- A write outside a window leaves it alone.
pub window-set_outside :
    (buffer : List ℕ) (i n k v : ℕ)
    → i < 256
    → n ≤ distance i k
    → k < 256
    → window (set buffer k v) i n ≡ window buffer i n
unfolding window
window-set_outside buffer i zero k v hi hn hk = refl
window-set_outside buffer i (suc n) k v hi hn hk =
    ap₂ ◌∷◌ (get_or-set_ne buffer k i v 0 (omega arith))
      (window-set_outside buffer ((i + 1) % 256) n k v (omega arith) (omega arith) hk)

-- A window that grows by one byte at its end.
pub window-suc :
    (buffer : List ℕ) (i n k : ℕ)
    → i < 256
    → k ≡ (i + n) % 256
    → window buffer i (suc n) ≡ window buffer i n ++ (get_or buffer k 0 ∷ [])
unfolding window
window-suc buffer i zero k hi e = ap (λ t. get_or buffer t 0 ∷ []) (omega arith)
window-suc buffer i (suc n) k hi e =
    ap (λ t. get_or buffer i 0 ∷ t)
      (window-suc buffer ((i + 1) % 256) n k (omega arith) (omega arith))

-- Moving the head on adds the byte that stands there at the end.
pub window_publish :
    (buffer : List ℕ) (head tail : ℕ)
    → head < 256
    → tail < 256
    → distance tail head < 255
    → window buffer tail (distance tail (next head))
      ≡ window buffer tail (distance tail head) ++ (get_or buffer head 0 ∷ [])
window_publish buffer head tail hh ht room =
    let step : distance tail (next head) ≡ suc (distance tail head) =
      omega (arith, next_lem head) in
    ap (window buffer tail) step ∙ window-suc buffer tail (distance tail head) head ht (omega arith)

-- Storing a byte at the head and moving the head on adds that byte at the end.
window_push :
    (buffer : List ℕ) (head tail b : ℕ)
    → length buffer ≡ 256
    → head < 256
    → tail < 256
    → next head ≢ tail
    → window (set buffer head b) tail (distance tail (next head))
      ≡ window buffer tail (distance tail head) ++ (b ∷ [])
window_push buffer head tail b size hh ht room =
    window_publish (set buffer head b) head tail hh ht (omega (arith, next_lem head))
    ∙ ap₂ (λ xs y. xs ++ (y ∷ []))
        (window-set_outside buffer tail (distance tail head) head b ht (omega arith) hh)
        (get_or-set_self buffer head b 0 (omega arith))

-- The oldest byte of a FIFO that is not empty stands at the tail.
pub window_pop :
    (buffer : List ℕ) (head tail : ℕ)
    → head < 256
    → tail < 256
    → tail ≢ head
    → window buffer tail (distance tail head)
      ≡ get_or buffer tail 0 ∷ window buffer (next tail) (distance (next tail) head)
unfolding window
window_pop buffer head tail hh ht ne =
    let step : distance tail head ≡ suc (distance (next tail) head) =
      omega (arith, next_lem tail) in
    ap (window buffer tail) step
    ∙ ap (λ t. get_or buffer tail 0 ∷ window buffer t (distance (next tail) head))
        (sym (next_lem tail))

pub window_empty :
    (buffer : List ℕ) (i j : ℕ) → i < 256 → i ≡ j → window buffer i (distance i j) ≡ []
unfolding window
window_empty buffer i j h e = let z : distance i j ≡ 0 = omega arith in ap (window buffer i) z

abbrev pub contents : Fifo → Queue
contents f = window f.buffer f.tail (distance f.tail f.head)

abbrev pub IsByte : ℕ → Type 0
IsByte b = b < 256

-- The representation invariant of the FIFO.
pub record IsValid (f : Fifo) : Type 0 where
  pub size : length f.buffer ≡ fifo_size
  pub head_in : f.head < fifo_size
  pub tail_in : f.tail < fifo_size
  pub bytes : (i : ℕ) → get_or f.buffer i 0 < 256

pub set-bytes :
    (xs : List ℕ) (k v : ℕ)
    → v < 256
    → ((i : ℕ) → get_or xs i 0 < 256)
    → (i : ℕ) → get_or (set xs k v) i 0 < 256
set-bytes [] k v hv h i = omega arith
set-bytes (x ∷ xs) zero v hv h zero = hv
set-bytes (x ∷ xs) zero v hv h (suc i) = h (suc i)
set-bytes (x ∷ xs) (suc k) v hv h zero = h zero
set-bytes (x ∷ xs) (suc k) v hv h (suc i) = set-bytes xs k v hv (λ j. h (suc j)) i

pub zeros-bytes : (n i : ℕ) → get_or (replicate n 0) i 0 < 256
zeros-bytes zero i = omega arith
zeros-bytes (suc n) zero = omega arith
zeros-bytes (suc n) (suc i) = zeros-bytes n i

-- `fifo_init` empties a FIFO and makes its indices valid, whatever they were.
pub fifo_init-IsValid :
    (f : Fifo)
    → length f.buffer ≡ fifo_size
    → ((i : ℕ) → get_or f.buffer i 0 < 256)
    → IsValid (fifo_init f) × (contents (fifo_init f) ≡ [])
unfolding fifo_init window
fifo_init-IsValid f size bytes =
    (record { size = size; head_in = omega arith; tail_in = omega arith; bytes = bytes }, refl)

-- `fifo_push` keeps the invariant.
pub fifo_push-IsValid : {f : Fifo} (c : ℕ) → IsValid f → IsValid (fifo_push f c)
unfolding fifo_push
fifo_push-IsValid {f} c v = elim (Bool-cases (next f.head == f.tail)) [
  | inl full ↦ rw full v
  | inr room ↦ rw room (record {
    size = length-set f.buffer f.head (c % 256) ∙ v.size;
    head_in = omega (arith, next_lem f.head);
    tail_in = v.tail_in;
    bytes = set-bytes f.buffer f.head (c % 256) (omega arith) v.bytes;
  })
]

-- `fifo_pop` keeps the invariant.
pub fifo_pop-IsValid : {f : Fifo} → IsValid f → IsValid (fifo_pop f).1
unfolding fifo_pop
fifo_pop-IsValid {f} v = elim (Bool-cases (f.tail == f.head)) [
  | inl e ↦ rw e v
  | inr ne ↦ rw ne (record {
    size = v.size;
    head_in = v.head_in;
    tail_in = omega (arith, next_lem f.tail);
    bytes = v.bytes;
  })
]

pub fifo_push_refines :
    {f : Fifo} (c : ℕ) → IsValid f → contents (fifo_push f c) ≡ Queue.enqueue (contents f) c
unfolding fifo_push Queue.enqueue
fifo_push_refines {f} c v =
    let held = length-window f.buffer f.tail (distance f.tail f.head) in
    ground (arith, v.size, held, next_lem f.head, window_push f.buffer f.head f.tail (c % 256))

pub fifo_pop_refines :
    {f : Fifo}
    → IsValid f
    → let (r, f') = fifo_pop f in (r, contents f') ≡ Queue.dequeue (contents f)
unfolding fifo_pop Queue.dequeue
fifo_pop_refines {f} v = elim (ℕ_discrete f.tail f.head) [
  | yes e ↦ ground (arith, window_empty f.buffer f.tail f.head v.tail_in e)
  | no ne ↦ ground (arith, v.bytes f.tail, window_pop f.buffer f.head f.tail v.head_in v.tail_in ne)
]

pub fifo_is_empty_refines : {f : Fifo} → IsValid f → fifo_is_empty f ≡ Queue.is_empty (contents f)
unfolding fifo_is_empty Queue.is_empty
fifo_is_empty_refines {f} v = elim (ℕ_discrete f.tail f.head) [
  | yes e ↦ ground (arith, window_empty f.buffer f.tail f.head v.tail_in e)
  | no ne ↦ ground (arith, window_pop f.buffer f.head f.tail v.head_in v.tail_in ne)
]

-- A client's calls in order, with what each returns.
unfoldable pub run : Fifo → List Op → List Reply
run f [] = []
run f (push c ∷ ops) = done ∷ run (fifo_push f c) ops
run f (pop ∷ ops) = let (v, f') = fifo_pop f in value v ∷ run f' ops
run f (test_empty ∷ ops) = flag (fifo_is_empty f) ∷ run f ops

-- No sequence of calls tells a valid FIFO from the bounded queue of its contents.
pub run_refines : (ops : List Op) {f : Fifo} → IsValid f → run f ops ≡ Queue.run (contents f) ops
unfolding run Queue.run
run_refines [] v = refl
run_refines (push c ∷ ops) v = rw (run_refines ops (fifo_push-IsValid c v), ← fifo_push_refines c v)
run_refines (pop ∷ ops) v = rw (run_refines ops (fifo_pop-IsValid v), ← fifo_pop_refines v)
run_refines (test_empty ∷ ops) v = rw (run_refines ops v, ← fifo_is_empty_refines v)
