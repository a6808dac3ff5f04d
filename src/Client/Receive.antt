-- ===== src/Client/Receive.antt =====
-- Client.cpp: what the loop of `tcp_iot` makes of the packets that `recv` brings.
use test_frame.Prelude.{
  ℕ, zero, suc, ◌-◌, ◌≡◌, ◌⊎◌, inl, inr, refl, ◌∙◌, Bool, Bool-cases, if◌then◌else◌, true, false,
  Option, none, some, List, [], ◌∷◌, ◌++◌, length, take, replicate, length-append, length-take,
  length-replicate, All, Bytes, contains, arith,
}
use test_frame.Client.{
  Recv, received, failed, Received, broke, blocked, overran, receive_line, fill, cleared, c_string,
  chunk_size, newline, ends_loop,
}

pub length-fill : (bs : Bytes) → length (fill bs) ≡ chunk_size
unfolding fill
length-fill bs = omega (
  arith,
  length-append (take chunk_size bs) (replicate (chunk_size - length bs) 0),
  length-take chunk_size bs,
  length-replicate {A = ℕ} (chunk_size - length bs) 0,
)

-- An event that lets the loop go on: nothing came, a call was interrupted, or a packet came that has
-- no newline before its first NUL.
abbrev pub Passes : Recv → Type 0
Passes (failed errno) = ends_loop errno ≡ false
Passes (received bs) =
    (bs ≡ []) ⊎ ((s : Bytes) × (c_string (fill bs) ≡ some s) × (contains newline s ≡ false))

receive_line-Passes :
    (e : Recv) (rs : List Recv) → Passes e → receive_line (e ∷ rs) ≡ receive_line rs
unfolding receive_line
receive_line-Passes (failed errno) rs h = rw h
receive_line-Passes (received []) rs h = refl
receive_line-Passes (received (b ∷ bs)) rs (inl e) = absurd (cc)
receive_line-Passes (received (b ∷ bs)) rs (inr (s, e, h)) = rw (e, h)

-- What came in before the last packet has no part in the response: packets without a newline in
-- front, whatever they hold, leave the result as it would be without them. A response that TCP cuts
-- in two loses its beginning.
pub receive_line-forgets :
    (es rs : List Recv) → All Passes es → receive_line (es ++ rs) ≡ receive_line rs
receive_line-forgets [] rs h = refl
receive_line-forgets (e ∷ es) rs h =
    receive_line-Passes e (es ++ rs) h.0 ∙ receive_line-forgets es rs h.1

-- Once the peer has closed the connection, `recv` returns 0 for ever, and the loop never ends: it has
-- not returned after any number of calls.
pub closed-blocks : (n : ℕ) → receive_line (replicate n (received [])) ≡ blocked
unfolding receive_line
closed-blocks zero = refl
closed-blocks (suc n) = closed-blocks n

broke_on_error :
    (b : Bool) (rest : Received) (chunk : Bytes)
    → (if b then broke cleared else rest) ≡ broke chunk
    → (chunk ≡ cleared) ⊎ (rest ≡ broke chunk)
broke_on_error true rest chunk h = inl (cc)
broke_on_error false rest chunk h = inr h

-- The chunk is the cleared one, or a packet with a newline before its first NUL.
abbrev pub IsChunk : Bytes → Type 0
IsChunk chunk =
    (chunk ≡ cleared)
    ⊎ ((bs : Bytes) × (s : Bytes) × (chunk ≡ fill bs)
        × (c_string (fill bs) ≡ some s)
        × (contains newline s ≡ true))

IsChunk-received :
    (bs : Bytes) (o : Option Bytes) (rest : Received) (chunk : Bytes)
    → c_string (fill bs) ≡ o
    → (rest ≡ broke chunk → IsChunk chunk)
    → elim o [ none ↦ overran | some s ↦ if contains newline s then broke (fill bs) else rest ]
      ≡ broke chunk
    → IsChunk chunk
IsChunk-received bs none rest chunk e ih h = cc
IsChunk-received bs (some s) rest chunk e ih h = elim (Bool-cases (contains newline s)) [
  | inl hit ↦ let broken : broke (fill bs) ≡ broke chunk = rw hit at h in inr (bs, s, cc, e, hit)
  | inr miss ↦ ih (rw miss at h)
]

-- The loop ends with a cleared chunk, which is an error or a timeout, or with a packet that holds a
-- newline before its first NUL.
pub receive_line-IsChunk :
    (rs : List Recv) (chunk : Bytes) → receive_line rs ≡ broke chunk → IsChunk chunk
unfolding receive_line
receive_line-IsChunk [] chunk h = cc
receive_line-IsChunk (failed errno ∷ rs) chunk h =
    elim (broke_on_error (ends_loop errno) (receive_line rs) chunk h) [
      | inl e ↦ inl e
      | inr later ↦ receive_line-IsChunk rs chunk later
    ]
receive_line-IsChunk (received [] ∷ rs) chunk h = receive_line-IsChunk rs chunk h
receive_line-IsChunk (received (b ∷ bs) ∷ rs) chunk h =
    IsChunk-received (b ∷ bs) (c_string (fill (b ∷ bs))) (receive_line rs) chunk refl
      (receive_line-IsChunk rs chunk) h

pub IsChunk-length : (chunk : Bytes) → IsChunk chunk → length chunk ≡ chunk_size
unfolding cleared
IsChunk-length chunk (inl e) = rw e (length-replicate {A = ℕ} chunk_size 0)
IsChunk-length chunk (inr (bs, s, e, _, _)) = rw e (length-fill bs)
