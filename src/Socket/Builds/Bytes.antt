-- ===== src/Socket/Builds/Bytes.antt =====
-- A buffer as a list of bytes and as a piece of memory.
use netclass.Common.{
  ℕ, pos, ◌+◌, ◌-◌, ◌≤◌, ◌≡◌, sym, ap, ap₂, ◌∙◌, inl, inr, List, ◌++◌, length, take, drop,
  drop-append_left, arith,
}
use netclass.Socket.State.{overwrite}
use netclass.Socket.Select.Memory.{
  Memory, bytes_at, store, bytes_at-add, take-bytes_at, length-bytes_at, bytes_at-agree,
  bytes_at-store, store-outside,
}

module _ (memory : Memory) (room : ℕ) where
  bytes_at-split :
      (a : ℕ)
      → a ≤ room
      → bytes_at memory (pos 0) room
        ≡ bytes_at memory (pos 0) a ++ bytes_at memory (pos a) (room - a)
  bytes_at-split a le =
      let split : room ≡ a + (room - a) = omega arith in
      ap (bytes_at memory (pos 0)) split
      ∙ bytes_at-add memory 0 a (room - a)
      ∙ ap (λ i. bytes_at memory (pos 0) a ++ bytes_at memory (pos i) (room - a)) (omega arith)

  pub drop-bytes_at :
      (a : ℕ)
      → a ≤ room
      → drop a (bytes_at memory (pos 0) room) ≡ bytes_at memory (pos a) (room - a)
  drop-bytes_at a le = rw (bytes_at-split a le) (
      drop-append_left a (bytes_at memory (pos 0) a) (bytes_at memory (pos a) (room - a))
        (sym (length-bytes_at memory (pos 0) a)))

  -- The bytes that a send takes from the middle of the buffer.
  pub take-drop-bytes_at :
      (a k : ℕ)
      → a + k ≤ room
      → take k (drop a (bytes_at memory (pos 0) room)) ≡ bytes_at memory (pos a) k
  take-drop-bytes_at a k le =
      rw (drop-bytes_at a (omega arith)) (take-bytes_at memory (pos a) k (room - a) (omega arith))

module _ (memory : Memory) (room a : ℕ) (bytes : List ℕ) (le : a + length bytes ≤ room) where
  stored-before : bytes_at (store memory (pos a) bytes) (pos 0) a ≡ bytes_at memory (pos 0) a
  stored-before =
      bytes_at-agree (store memory (pos a) bytes) memory 0 a
        (λ i lo hi. store-outside memory a i bytes (inl (omega arith)))

  stored-from :
      (k : ℕ)
      → bytes_at (store memory (pos a) bytes) (pos a) (length bytes + k)
        ≡ bytes ++ bytes_at memory (pos (a + length bytes)) k
  stored-from k =
      bytes_at-add (store memory (pos a) bytes) a (length bytes) k
      ∙ ap₂ ◌++◌ (bytes_at-store memory a bytes) (
          bytes_at-agree (store memory (pos a) bytes) memory (a + length bytes) k
            (λ i lo hi. store-outside memory a i bytes (inr (omega arith))))

  -- What a receive stores in the middle of the buffer.
  pub bytes_at-overwrite :
      bytes_at (store memory (pos a) bytes) (pos 0) room
      ≡ overwrite (bytes_at memory (pos 0) room) a bytes
  unfolding overwrite
  bytes_at-overwrite =
      let rest : room - a ≡ length bytes + (room - (a + length bytes)) = omega arith in
      bytes_at-split (store memory (pos a) bytes) room a (omega arith)
      ∙ ap₂ ◌++◌ (stored-before ∙ sym (take-bytes_at memory (pos 0) a room (omega arith))) (
          ap (bytes_at (store memory (pos a) bytes) (pos a)) rest
          ∙ stored-from (room - (a + length bytes))
          ∙ ap (λ l. bytes ++ l) (sym (drop-bytes_at memory room (a + length bytes) le)))
