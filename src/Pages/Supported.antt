-- ===== src/Pages/Supported.antt =====
-- What the walk over the page of supported pages visits: libscsicmd/include/parse_log_sense.h.
use diskscan.Base.{
  ℕ, zero, suc, ◌+◌, ◌-◌, ◌^◌, ◌<◌, ◌≤◌, ◌≡◌, refl, true, some, List, length, get_elem?-get_or,
  take, drop, drop-lt, arith,
}
use diskscan.Wire.{safe_len}
use diskscan.Pages.Log.{
  log_sense_data_len, log_sense_data_end, log_sense_is_valid, log_sense_subpage_format,
  log_sense_subpage_code, supported_pages_from, supported_pages,
}

supported_pages_from_lem :
    (n : ℕ) (buf : List ℕ) (tmp : ℕ)
    → tmp + n < length buf
    → supported_pages_from n buf tmp ≡ some (take n (drop tmp buf))
unfolding supported_pages_from
supported_pages_from_lem zero buf tmp h = rw (get_elem?-get_or buf tmp 0 (omega arith)) refl
supported_pages_from_lem (suc n) buf tmp h =
    let next : tmp + 1 ≡ suc tmp = omega arith in
    rw
      (
        get_elem?-get_or buf tmp 0 (omega arith),
        supported_pages_from_lem n buf (tmp + 1) (omega arith),
        next,
        drop-lt buf tmp 0 (omega arith),
      )
      refl

data_end_lem :
    (buf : List ℕ) (data_len : ℕ) {len : ℕ}
    → log_sense_data_len buf ≡ some len
    → len < 2 ^ 16
    → 4 < data_len
    → data_len ≤ length buf
    → log_sense_is_valid buf data_len ≡ some true
    → log_sense_data_end buf data_len ≡ some (data_len - 4)
unfolding log_sense_is_valid log_sense_data_end log_sense_subpage_format log_sense_subpage_code
    safe_len
data_end_lem buf data_len {len} e hl h4 hb valid =
    let checked =
      rw (e, get_elem?-get_or buf 0 0 (omega arith), get_elem?-get_or buf 1 0 (omega arith)) at
        valid in
    rw e (ground (arith, checked))

-- The loop over the page of supported pages visits the bytes from the first on, in order, and stays
-- inside the buffer, but it stops four bytes before the end of a valid page.
pub supported_pages-eq :
    (buf : List ℕ) (data_len : ℕ) {len : ℕ}
    → log_sense_data_len buf ≡ some len
    → len < 2 ^ 16
    → 4 < data_len
    → data_len ≤ length buf
    → log_sense_is_valid buf data_len ≡ some true
    → supported_pages buf data_len ≡ some (take (data_len - 4 - 4) (drop 4 buf))
unfolding supported_pages
supported_pages-eq buf data_len e hl h4 hb valid =
    rw (data_end_lem buf data_len e hl h4 hb valid)
      (supported_pages_from_lem (data_len - 4 - 4) buf 4 (omega arith))
