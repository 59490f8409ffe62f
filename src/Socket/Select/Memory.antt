-- ===== src/Socket/Select/Memory.antt =====
-- The memory round a buffer, by the distance from the buffer's start: what a C pointer into the buffer
-- reads and writes, also in front of it.
use netclass.Common.{
  ℕ, zero, suc, ℤ, pos, negsuc, ◌+ℤ◌, ◌+◌, ◌≤◌, ◌<◌, ◌≡◌, refl, ap, ◌∙◌, ◌⊎◌, eqb_ℤ, if◌then◌else◌,
  List, [], ◌∷◌, ◌++◌, length, take, arith, ap₂, suc-add,
}

abbrev pub Memory : Type 0
Memory = ℤ → ℕ

-- `n` bytes from `off` on.
unfoldable pub bytes_at : Memory → ℤ → ℕ → List ℕ
bytes_at mem off zero = []
bytes_at mem off (suc n) = mem off ∷ bytes_at mem (off +ℤ pos 1) n

-- The memory after `bytes` have been written from `off` on.
unfoldable pub store : Memory → ℤ → List ℕ → Memory
store mem off [] i = mem i
store mem off (b ∷ bs) i = if eqb_ℤ i off then b else store mem (off +ℤ pos 1) bs i

pub pos-next : (n : ℕ) → pos n +ℤ pos 1 ≡ pos (suc n)
pos-next n = ground arith

pub take-bytes_at :
    (mem : Memory) (off : ℤ) (k n : ℕ) → k ≤ n → take k (bytes_at mem off n) ≡ bytes_at mem off k
unfolding bytes_at
take-bytes_at mem off zero n h = refl
take-bytes_at mem off (suc k) zero h = absurd (omega arith)
take-bytes_at mem off (suc k) (suc n) h =
    ap (λ l. mem off ∷ l) (take-bytes_at mem (off +ℤ pos 1) k n (omega arith))

pub length-bytes_at : (mem : Memory) (off : ℤ) (n : ℕ) → length (bytes_at mem off n) ≡ n
unfolding bytes_at
length-bytes_at mem off zero = refl
length-bytes_at mem off (suc n) = ap suc (length-bytes_at mem (off +ℤ pos 1) n)

pub bytes_at-add :
    (mem : Memory) (a n k : ℕ)
    → bytes_at mem (pos a) (n + k) ≡ bytes_at mem (pos a) n ++ bytes_at mem (pos (a + n)) k
unfolding bytes_at
bytes_at-add mem a zero k = ap₂ (bytes_at mem) (ap pos (omega arith)) (omega arith)
bytes_at-add mem a (suc n) k =
    ap (bytes_at mem (pos a)) (suc-add n k)
    ∙ rw (pos-next a) (
        ap (λ l. mem (pos a) ∷ l)
          (bytes_at-add mem (suc a) n k
            ∙ ap (λ j. bytes_at mem (pos (suc a)) n ++ bytes_at mem (pos j) k) (omega arith)))

-- Memories that agree on a range have the same bytes there.
pub bytes_at-agree :
    (mem mem' : Memory) (a n : ℕ)
    → ((i : ℕ) → a ≤ i → i < a + n → mem (pos i) ≡ mem' (pos i))
    → bytes_at mem (pos a) n ≡ bytes_at mem' (pos a) n
unfolding bytes_at
bytes_at-agree mem mem' a zero h = refl
bytes_at-agree mem mem' a (suc n) h =
    rw (pos-next a, h a (omega arith) (omega arith))
      (ap (λ l. mem' (pos a) ∷ l)
        (bytes_at-agree mem mem' (suc a) n (λ i lo hi. h i (omega arith) (omega arith))))

pub store-outside :
    (mem : Memory) (a i : ℕ) (bs : List ℕ)
    → (i < a) ⊎ (a + length bs ≤ i)
    → store mem (pos a) bs (pos i) ≡ mem (pos i)
unfolding store
store-outside mem a i [] h = refl
store-outside mem a i (b ∷ bs) h = rw (pos-next a) (ground (arith, store-outside mem (suc a) i bs))

pub store-before :
    (mem : Memory) (a i : ℕ) (bs : List ℕ) → store mem (pos a) bs (negsuc i) ≡ mem (negsuc i)
unfolding store
store-before mem a i [] = refl
store-before mem a i (b ∷ bs) = rw (pos-next a) (ground (arith, store-before mem (suc a) i bs))

pub bytes_at-store :
    (mem : Memory) (a : ℕ) (bs : List ℕ) → bytes_at (store mem (pos a) bs) (pos a) (length bs) ≡ bs
unfolding bytes_at store
bytes_at-store mem a [] = refl
bytes_at-store mem a (b ∷ bs) = rw (pos-next a) (
    ap₂ ◌∷◌ (ground arith) (
      bytes_at-agree (store mem (pos a) (b ∷ bs)) (store mem (pos (suc a)) bs) (suc a) (length bs)
        (λ i lo hi. rw (pos-next a) (ground arith))
      ∙ bytes_at-store mem (suc a) bs))
