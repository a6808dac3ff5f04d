-- ===== src/Client/Bounds.antt =====
-- Client.cpp: whether `std::string tmp_rsp = chunk` finds the NUL that ends it.
use test_frame.Prelude.{
  ℕ, suc, ◌-◌, ◌<◌, ◌≡◌, ◌≢◌, refl, inl, inr, ◌==◌, Bool-cases, none, some, List, [], ◌∷◌, ◌++◌,
  length, replicate, take-of_le, All, Bytes, arith,
}
use mathlib.Core.List.{append-nil}
use test_frame.Client.{Recv, received, failed, overran, receive_line, fill, c_string, chunk_size}

c_string-append :
    (bs : Bytes) (n : ℕ) → (s : Bytes) × (c_string (bs ++ replicate (suc n) 0) ≡ some s)
unfolding c_string
c_string-append [] n = ([], refl)
c_string-append (b ∷ bs) n =
    let (s, e) = c_string-append bs n in
    elim (Bool-cases (b == 0)) [ inl z ↦ ([], rw z) | inr z ↦ (b ∷ s, rw (z, e)) ]

pub c_string-fill :
    (bs : Bytes) → length bs < chunk_size → (s : Bytes) × (c_string (fill bs) ≡ some s)
unfolding fill
c_string-fill bs h =
    let e : chunk_size - length bs ≡ suc (chunk_size - length bs - 1) = omega arith in
    rw (take-of_le chunk_size bs (omega arith), e) (c_string-append bs (chunk_size - length bs - 1))

abbrev pub IsShort : Recv → Type 0
IsShort (received bs) = length bs < chunk_size
IsShort (failed errno) = Unit

-- No packet of fewer than 1024 bytes makes the client read past its buffer, whatever it holds.
pub short-stays_in_bounds : (rs : List Recv) → All IsShort rs → receive_line rs ≢ overran
unfolding receive_line
short-stays_in_bounds [] h e = cc
short-stays_in_bounds (failed errno ∷ rs) h e = ground (arith, short-stays_in_bounds rs h.1)
short-stays_in_bounds (received [] ∷ rs) h e = short-stays_in_bounds rs h.1 e
short-stays_in_bounds (received (b ∷ bs) ∷ rs) h e =
    let (s, f) = c_string-fill (b ∷ bs) h.0 in ground (arith, f, short-stays_in_bounds rs h.1)

c_string-none : (bs : Bytes) → All (λ b. b ≢ 0) bs → c_string bs ≡ none
unfolding c_string
c_string-none [] h = refl
c_string-none (b ∷ bs) h = rw (c_string-none bs h.1) (ground arith)

fill-full : (bs : Bytes) → length bs ≡ chunk_size → fill bs ≡ bs
unfolding fill
fill-full bs h = rw (take-of_le chunk_size bs (omega arith), h) (append-nil bs)

-- A packet that fills the buffer with 1024 bytes of which none is NUL makes the client read past it.
pub full_packet-overruns :
    (bs : Bytes) (rs : List Recv)
    → length bs ≡ chunk_size
    → All (λ b. b ≢ 0) bs
    → receive_line (received bs ∷ rs) ≡ overran
unfolding receive_line
full_packet-overruns [] rs h n = absurd (omega arith)
full_packet-overruns (b ∷ bs) rs h n = rw full
  where
    full : c_string (fill (b ∷ bs)) ≡ none
    full = rw (fill-full (b ∷ bs) h, c_string-none (b ∷ bs) n)
