-- ===== src/Fifo/Queue.antt =====
-- What common/include/fifo.h promises: a queue of bytes, oldest first, that holds at most 255.
use embed_template.Prelude.{
  ℕ, ◌%◌, List, [], ◌∷◌, ◌++◌, length, ltb, if◌then◌else◌, Bool, true, false,
}
use embed_template.Prelude.Int.{ℤ, pos, negsuc}

abbrev pub Queue : Type 0
Queue = List ℕ

abbrev pub capacity : ℕ
capacity = 255

pub data Op : Type 0 where
  push : ℕ → Op
  pop test_empty : Op

-- What a call returns.
pub data Reply : Type 0 where
  done : Reply
  value : ℤ → Reply
  flag : Bool → Reply

unfoldable pub enqueue : Queue → ℕ → Queue
enqueue q c = if ltb (length q) capacity then q ++ (c % 256 ∷ []) else q

unfoldable pub dequeue : Queue → ℤ × Queue
dequeue [] = (negsuc 0, [])
dequeue (x ∷ q) = (pos x, q)

unfoldable pub is_empty : Queue → Bool
is_empty [] = true
is_empty (x ∷ q) = false

unfoldable pub run : Queue → List Op → List Reply
run q [] = []
run q (push c ∷ ops) = done ∷ run (enqueue q c) ops
run q (pop ∷ ops) = let (v, q') = dequeue q in value v ∷ run q' ops
run q (test_empty ∷ ops) = flag (is_empty q) ∷ run q ops
