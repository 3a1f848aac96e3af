-- ===== src/Pages/StrCpy.antt =====
-- What `_ses_str_cpy` of libscsicmd/include/parse_receive_diagnostics.h leaves in the string.
use diskscan.Base.{
  ℕ, zero, suc, ◌+◌, ◌-◌, ◌^◌, ◌<◌, ◌≤◌, ◌≡◌, refl, ◌∙◌, some, List, length, get_elem?, set, get_or,
  get_elem?-get_or, get_elem?-set_self, get_elem?-set_ne, length-set, arith, ltb, u32, min,
  if◌then◌else◌, ◌>>=◌, Gives, gives, Gives-mono, Gives-step, sym,
}
use diskscan.Pages.Diagnostics.{copy_bytes, ses_str_cpy}

-- r is s with the n bytes from `to` on taken from offset `from` of the source.
pub record Copied (n : ℕ) (src : List ℕ) (from : ℕ) (s : List ℕ) (to : ℕ) (r : List ℕ)
    : Type 0 where
  pub size : length r ≡ length s
  pub bytes : (i : ℕ) → i < n → get_elem? r (to + i) ≡ get_elem? src (from + i)
  pub before : (i : ℕ) → i < to → get_elem? r i ≡ get_elem? s i

copy_bytes-Copied :
    (n : ℕ) (src : List ℕ) (from : ℕ) (s : List ℕ) (to : ℕ)
    → from + n ≤ length src
    → to + n ≤ length s
    → Gives (Copied n src from s to) (copy_bytes n src from s to)
unfolding copy_bytes
copy_bytes-Copied zero src from s to hs ht =
    gives s (record { size = refl; bytes = λ i h. absurd (omega arith); before = λ i h. refl })
copy_bytes-Copied (suc n) src from s to hs ht =
    let b = get_or src from 0 in
    let old = get_elem?-get_or s to 0 (omega arith) in
    let size = length-set s to b in
    let at = get_elem?-get_or src from 0 (omega arith) in
    rw (at, old)
      (Gives-mono
        (copy_bytes-Copied n src (from + 1) (set s to b) (to + 1) (omega arith)
          (omega (arith, size)))
        (λ r c. record {
          size = c.size ∙ size;
          bytes = λ i h. one n src from s to r b at (omega arith) c i h;
          before = λ i h. c.before i (omega arith) ∙ get_elem?-set_ne s b (ground arith);
        }))
  where
    one :
        (n : ℕ) (src : List ℕ) (from : ℕ) (s : List ℕ) (to : ℕ) (r : List ℕ) (b : ℕ)
        → get_elem? src from ≡ some b
        → to < length s
        → Copied n src (from + 1) (set s to b) (to + 1) r
        → (i : ℕ) → i < suc n
        → get_elem? r (to + i) ≡ get_elem? src (from + i)
    one n src from s to r b at h c zero hi =
        let e1 : to + 0 ≡ to = omega arith in
        let e2 : from + 0 ≡ from = omega arith in
        rw (e1, e2) (c.before to (omega arith) ∙ get_elem?-set_self s to b h ∙ sym at)
    one n src from s to r b at h c (suc i) hi =
        let e1 : to + suc i ≡ to + 1 + i = omega arith in
        let e2 : from + suc i ≡ from + 1 + i = omega arith in rw (e1, e2) (c.bytes i (omega arith))

-- Into a string of slen bytes at least, slen not zero, from a source that holds src_len bytes: the
-- copy stays inside both, keeps the string's size, leaves as many bytes of the source as there are
-- or fit with the final zero, and puts the zero behind them.
pub ses_str_cpy-Gives :
    (buf : List ℕ) (src src_len : ℕ) (s : List ℕ) (slen : ℕ)
    → src + src_len ≤ length buf
    → 0 < slen
    → slen < 2 ^ 32
    → slen ≤ length s
    → let n = min src_len (slen - 1) in
      Gives
        (λ r.
          (length r ≡ length s)
          × ((i : ℕ) → i < n → get_elem? r i ≡ get_elem? buf (src + i))
          × (get_elem? r n ≡ some 0))
        (ses_str_cpy buf src src_len s slen)
unfolding ses_str_cpy
ses_str_cpy-Gives buf src src_len s slen hb h0 hw hs =
    let n = min src_len (slen - 1) in
    let count : (if ltb src_len slen then src_len else u32 (slen + 2 ^ 32 - 1)) ≡ n =
      ground arith in
    rw count (
      Gives-step (λ copied. get_elem? copied n >>= λ old. some (set copied n 0))
        (copy_bytes-Copied n buf src s 0 (omega arith) (omega arith))
        (λ r c.
          let inside : n < length r = omega (arith, c.size) in
          rw (get_elem?-get_or r n 0 inside) (
            gives (set r n 0) (
              length-set r n 0 ∙ c.size,
              λ i h.
                  get_elem?-set_ne r 0 (ground arith)
                  ∙ (let e : 0 + i ≡ i = omega arith in rw e at (c.bytes i h)),
              get_elem?-set_self r n 0 inside,
            ))))
