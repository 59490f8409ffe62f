-- ===== src/Socket/Hostname.antt =====
-- src/ncsocket.cpp: the host name that the constructor and `connect` store is a C string.
use netclass.Common.{
  ℕ, zero, suc, ℤ, ◌+◌, ◌-◌, ◌≤◌, ◌≡◌, ◌≢◌, refl, ap, ◌∙◌, List, [], ◌∷◌, ◌++◌, length, take, drop,
  replicate, arith, min, length-take, length-append, length-replicate,
}
use netclass.Consts.{max_hostname_len}
use netclass.Socket.State.{NcSocket, PollObject, overwrite, copy_hostname, of_host}
use netclass.Socket.Connect.Defs.{c_string, retarget}

-- A C string's bytes are not zero.
abbrev pub NoZero : List ℕ → Type 0
NoZero [] = Unit
NoZero (b ∷ bs) = (b ≢ 0) × NoZero bs

NoZero-take : (n : ℕ) (bs : List ℕ) → NoZero bs → NoZero (take n bs)
NoZero-take zero bs h = tt
NoZero-take (suc n) [] h = tt
NoZero-take (suc n) (b ∷ bs) h = (h.0, NoZero-take n bs h.1)

c_string-append : (bs rest : List ℕ) → NoZero bs → c_string (bs ++ 0 ∷ rest) ≡ bs
unfolding c_string
c_string-append [] rest h = refl
c_string-append (b ∷ bs) rest h = ground (arith, c_string-append bs rest h.1)

drop-replicate : (k j n b : ℕ) → n ≡ k + suc j → drop k (replicate n b) ≡ b ∷ replicate j b
drop-replicate zero j zero b e = absurd (omega arith)
drop-replicate zero j (suc n) b e = ap (λ m. b ∷ replicate m b) (omega arith)
drop-replicate (suc k) j zero b e = absurd (omega arith)
drop-replicate (suc k) j (suc n) b e = drop-replicate k j n b (omega arith)

take-eq_of_min : (m n : ℕ) (bs : List ℕ) → m ≡ min (length bs) n → take m bs ≡ take n bs
take-eq_of_min zero zero bs e = refl
take-eq_of_min zero (suc n) [] e = refl
take-eq_of_min zero (suc n) (b ∷ bs) e = absurd (omega arith)
take-eq_of_min (suc m) zero bs e = absurd (omega arith)
take-eq_of_min (suc m) (suc n) [] e = refl
take-eq_of_min (suc m) (suc n) (b ∷ bs) e = ap (λ l. b ∷ l) (take-eq_of_min m n bs (omega arith))

copied-le : (m : ℕ) (host : List ℕ) → m ≤ 255 → length (take m host) ≤ 255
copied-le m host h = omega (arith, length-take m host)

-- The bytes copied, the zero behind them, and the rest of the array.
overwrite-zeros :
    (bs : List ℕ)
    → length bs ≤ 255
    → overwrite (replicate max_hostname_len 0) 0 bs ≡ bs ++ 0 ∷ replicate (255 - length bs) 0
unfolding overwrite
overwrite-zeros bs h =
    ap (λ l. bs ++ l)
      (drop-replicate (0 + length bs) (255 - length bs) max_hostname_len 0 (omega arith))

copy_hostname-append :
    (host : List ℕ)
    → copy_hostname host ≡ take 255 host ++ 0 ∷ replicate (255 - length (take 255 host)) 0
unfolding copy_hostname
copy_hostname-append host =
    overwrite-zeros (take (min (length host) (max_hostname_len - 1)) host)
      (copied-le _ host (omega arith))
    ∙ rw (take-eq_of_min (min (length host) (max_hostname_len - 1)) 255 host refl)

pub length-copy_hostname : (host : List ℕ) → length (copy_hostname host) ≡ max_hostname_len
length-copy_hostname host = rw (copy_hostname-append host) (
    omega (
      arith,
      length-append (take 255 host) (0 ∷ replicate (255 - length (take 255 host)) 0),
      length-replicate (255 - length (take 255 host)) (zero),
      copied-le 255 host (omega arith),
    ))

pub c_string-copy_hostname :
    (host : List ℕ) → NoZero host → c_string (copy_hostname host) ≡ take 255 host
c_string-copy_hostname host h =
    rw (copy_hostname-append host) (c_string-append (take 255 host) _ (NoZero-take 255 host h))

-- The name array stays 256 bytes long, and what the resolver reads from it is the host name that was
-- given, cut to 255 bytes, both after the constructor and after connect(host,port,sockType).
pub stored_hostname_lem :
    (zeroed : PollObject) (s : NcSocket) (host : List ℕ) (port : ℕ) (sock_type : ℤ)
    → NoZero host
    → (length (of_host zeroed host port sock_type).hostname ≡ max_hostname_len)
      × (length (retarget s host port sock_type).hostname ≡ max_hostname_len)
      × (c_string (of_host zeroed host port sock_type).hostname ≡ take 255 host)
      × (c_string (retarget s host port sock_type).hostname ≡ take 255 host)
unfolding of_host retarget
stored_hostname_lem zeroed s host port sock_type h = (
  length-copy_hostname host,
  length-copy_hostname host,
  c_string-copy_hostname host h,
  c_string-copy_hostname host h,
)
