-- ===== src/Response/Ends.antt =====
-- tcinclude/tc_http.cpp, `decode`: the end of the header as strstr finds it in the array, and as `find`
-- does in the bytes received.
use test_frame.Prelude.{
  ℕ, zero, suc, ◌≤◌, ◌≡◌, ◌≢◌, inl, inr, refl, true, false, Bool-cases, ◌==◌, none, some, ap, ◌∙◌,
  ◌++◌, [], ◌∷◌, length, take, length-take, All, Bytes, starts_with, contains, arith,
}
use test_frame.Text.{strstr}
use test_frame.Response.Decode.{
  HttpResponse, crlf_crlf, c_str, find_text, copy_bytes, on_copied, on_increment, if_ahead,
  increment_decode, decode,
}

abbrev pub IsText : Bytes → Type 0
IsText s = All (λ c. (c == 0) ≡ false) s

starts_with-c_str :
    (s text : Bytes) → IsText s → starts_with s text ≡ true → starts_with s (c_str text) ≡ true
unfolding c_str
starts_with-c_str [] text t h = refl
starts_with-c_str (c ∷ s) [] t h = absurd (cc)
starts_with-c_str (c ∷ s) (d ∷ text) t h =
    let same : c ≡ d = ground arith in
    let some_byte : (d == 0) ≡ false = rw same at (t.0) in
    rw some_byte (ground (arith, starts_with-c_str s text t.1))

starts_with_of_c_str :
    (s text : Bytes) → starts_with s (c_str text) ≡ true → starts_with s text ≡ true
unfolding c_str
starts_with_of_c_str [] text h = refl
starts_with_of_c_str (c ∷ s) [] h = h
starts_with_of_c_str (c ∷ s) (d ∷ text) h = elim (Bool-cases (d == 0)) [
  | inl z ↦ let never : false ≡ true = rw z at h in absurd (cc)
  | inr e ↦
      let start : starts_with (c ∷ s) (d ∷ c_str text) ≡ true = rw e at h in
      ground (arith, starts_with_of_c_str s text)
]

starts_with-take :
    (s text : Bytes) (n : ℕ)
    → starts_with s text ≡ true
    → length s ≤ n
    → starts_with s (take n text) ≡ true
starts_with-take [] text n h le = refl
starts_with-take (c ∷ s) [] n h le = absurd (cc)
starts_with-take (c ∷ s) (d ∷ text) zero h le = absurd (omega arith)
starts_with-take (c ∷ s) (d ∷ text) (suc n) h le = ground (arith, starts_with-take s text n)

length-le_of_starts : (s text : Bytes) → starts_with s text ≡ true → length s ≤ length text
length-le_of_starts [] text h = omega arith
length-le_of_starts (c ∷ s) [] h = absurd (cc)
length-le_of_starts (c ∷ s) (d ∷ text) h = ground (arith, length-le_of_starts s text)

length-le_of_found : (s text : Bytes) → find_text s text ≢ none → length s ≤ length text
unfolding find_text
length-le_of_found s [] h = absurd (h refl)
length-le_of_found s (c ∷ text) h = elim (Bool-cases (starts_with s (c ∷ text))) [
  | inl e ↦ length-le_of_starts s (c ∷ text) e
  | inr e ↦ ground (arith, length-le_of_found s text)
]

pub contains_of_starts : (s text : Bytes) → starts_with s text ≡ true → contains s text ≡ true
contains_of_starts [] [] h = refl
contains_of_starts (c ∷ s) [] h = absurd (cc)
contains_of_starts s (d ∷ text) h = rw h refl

pub contains-c_str-take :
    (n : ℕ) (array : Bytes)
    → contains crlf_crlf (c_str array) ≡ true
    → find_text crlf_crlf (take n array) ≢ none
    → contains crlf_crlf (c_str (take n array)) ≡ true
unfolding find_text c_str
contains-c_str-take zero array h found = absurd (found refl)
contains-c_str-take (suc n) [] h found = h
contains-c_str-take (suc n) (c ∷ array) h found = elim (Bool-cases (c == 0)) [
  | inl z ↦ let never : contains crlf_crlf [] ≡ true = rw z at h in absurd (cc)
  | inr byte ↦
      let ahead : contains crlf_crlf (c ∷ c_str array) ≡ true = rw byte at h in
      elim (Bool-cases (starts_with crlf_crlf (c ∷ take n array))) [
        | inl here ↦
            contains_of_starts crlf_crlf (c_str (c ∷ take n array)) (
              starts_with-c_str crlf_crlf (c ∷ take n array) (refl, (refl, (refl, (refl, tt))))
                here)
        | inr other ↦
            let later : find_text crlf_crlf (take n array) ≢ none = ground arith in
            let long : 4 ≤ n =
              omega
                (arith, length-le_of_found crlf_crlf (take n array) later, length-take n array) in
            elim (Bool-cases (starts_with crlf_crlf (c ∷ c_str array))) [
              | inl start ↦
                  let whole : starts_with crlf_crlf (c ∷ array) ≡ true =
                    starts_with_of_c_str crlf_crlf (c ∷ array) (rw byte start) in
                  let cut_off : starts_with crlf_crlf (c ∷ take n array) ≡ true =
                    starts_with-take crlf_crlf (c ∷ array) (suc n) whole (omega arith) in
                  absurd (cc)
              | inr no_start ↦
                  let more : contains crlf_crlf (c_str array) ≡ true = ground arith in
                  let rest = contains-c_str-take n array more later in rw byte (ground arith)
            ]
      ]
]

-- strstr stops at the first occurrence, if there is one in front of the first NUL.
pub strstr_of_found :
    (s array : Bytes)
    → IsText s
    → s ≢ []
    → contains s (c_str array) ≡ true
    → strstr s array ≡ some true
unfolding strstr c_str
strstr_of_found [] [] t some_byte h = absurd (some_byte refl)
strstr_of_found (c ∷ s) [] t some_byte h = absurd (cc)
strstr_of_found s (b ∷ array) t some_byte h = elim (Bool-cases (starts_with s (b ∷ array))) [
  | inl here ↦ rw here refl
  | inr other ↦ elim (Bool-cases (b == 0)) [
    | inl z ↦
        let none_left : contains s [] ≡ true = rw z at h in
        absurd (some_byte (is_empty-nil s none_left))
    | inr byte ↦
        let ahead : contains s (b ∷ c_str array) ≡ true = rw byte at h in
        elim (Bool-cases (starts_with s (b ∷ c_str array))) [
          | inl start ↦
              let whole = starts_with_of_c_str s (b ∷ array) (rw byte start) in absurd (cc)
          | inr later ↦
              let more : contains s (c_str array) ≡ true = ground arith in
              rw (other, byte) (strstr_of_found s array t some_byte more)
        ]
  ]
]
  where
    is_empty-nil : (s : Bytes) → contains s [] ≡ true → s ≡ []
    is_empty-nil [] h = refl
    is_empty-nil (c ∷ s) h = absurd (cc)

pub contains-nul : (text behind : Bytes) → contains (0 ∷ []) (text ++ 0 ∷ behind) ≡ true
contains-nul [] behind = refl
contains-nul (c ∷ text) behind = ground (arith, contains-nul text behind)

-- In an array with a NUL strstr ends, where nothing is found as well.
pub strstr_of_missing :
    (s array : Bytes)
    → IsText s
    → contains s (c_str array) ≡ false
    → contains (0 ∷ []) array ≡ true
    → strstr s array ≡ some false
unfolding strstr c_str
strstr_of_missing s [] t h ended = absurd (cc)
strstr_of_missing s (b ∷ array) t h ended = elim (Bool-cases (starts_with s (b ∷ array))) [
  | inl here ↦
      let start = starts_with-c_str s (b ∷ array) t here in
      let found = contains_of_starts s (c_str (b ∷ array)) start in absurd (cc)
  | inr other ↦ elim (Bool-cases (b == 0)) [
    | inl z ↦ rw (other, z) refl
    | inr byte ↦
        let missing : contains s (b ∷ c_str array) ≡ false = rw byte at h in
        rw (other, byte) (strstr_of_missing s array t (ground arith) (ground arith))
  ]
]

pub copy_bytes-take :
    (array : Bytes) (n : ℕ) → n ≤ length array → copy_bytes array n ≡ some (take n array)
unfolding copy_bytes
copy_bytes-take array zero le = refl
copy_bytes-take [] (suc n) le = absurd (omega arith)
copy_bytes-take (b ∷ array) (suc n) le = rw (copy_bytes-take array n (omega arith)) refl

crlf_crlf-IsText : IsText crlf_crlf
crlf_crlf-IsText = (refl, (refl, (refl, (refl, tt))))

-- What `decode` does inside the array.
pub decode_of_found :
    (array : Bytes) (n : ℕ) (r : HttpResponse)
    → contains crlf_crlf (c_str array) ≡ true
    → n ≤ length array
    → decode array n r ≡ on_increment n (increment_decode r (take n array))
unfolding decode
decode_of_found array n r ahead le =
    ap (if_ahead r (on_copied n r (copy_bytes array n)))
      (strstr_of_found crlf_crlf array crlf_crlf-IsText (λ e. cc) ahead)
    ∙ ap (on_copied n r) (copy_bytes-take array n le)

pub decode_of_missing :
    (array : Bytes) (n : ℕ) (r : HttpResponse)
    → contains crlf_crlf (c_str array) ≡ false
    → contains (0 ∷ []) array ≡ true
    → decode array n r ≡ some (r, false)
unfolding decode
decode_of_missing array n r missing ended =
    ap (if_ahead r (on_copied n r (copy_bytes array n)))
      (strstr_of_missing crlf_crlf array crlf_crlf-IsText missing ended)
