-- ===== src/Pages/Log.antt =====
-- Log pages: libscsicmd/include/parse_log_sense.h and libscsicmd/src/log_sense.c. The macros that
-- head a loop are functions from the buffer to what the loop's body sees, in order.
use diskscan.Base.{
  ℕ, zero, suc, ◌+◌, ◌-◌, ◌/◌, ◌%◌, ◌^◌, Bool, true, false, Option, some, none, List, [], ◌∷◌,
  get_elem?, bit, ltb, ◌==◌, ◌&&◌, not, if◌then◌else◌, ◌>>=◌,
}
use diskscan.Wire.{get_uint16, safe_len}

unfoldable pub log_sense_page_code : List ℕ → Option ℕ
log_sense_page_code buf = get_elem? buf 0 >>= λ b. some (b % 2 ^ 6)

unfoldable pub log_sense_subpage_format : List ℕ → Option Bool
log_sense_subpage_format buf = get_elem? buf 0 >>= λ b. some (bit b 6)

unfoldable pub log_sense_data_saved : List ℕ → Option Bool
log_sense_data_saved buf = get_elem? buf 0 >>= λ b. some (bit b 7)

unfoldable pub log_sense_subpage_code : List ℕ → Option ℕ
log_sense_subpage_code buf = get_elem? buf 1

unfoldable pub log_sense_data_len : List ℕ → Option ℕ
log_sense_data_len buf = get_uint16 buf 2

-- `log_sense_data(data)` is at offset 4.
unfoldable pub log_sense_data_end : List ℕ → ℕ → Option ℕ
log_sense_data_end buf data_len = log_sense_data_len buf >>= λ len. some (safe_len data_len 4 len)

unfoldable pub log_sense_is_valid : List ℕ → ℕ → Option Bool
log_sense_is_valid buf data_len = if ltb data_len 4 then some false else (do
  format ← log_sense_subpage_format buf
  subpage ← log_sense_subpage_code buf
  len ← log_sense_data_len buf
  some (if not format && not (subpage == 0) then false else not (ltb (len + 4) data_len)))

unfoldable pub log_sense_param_code : List ℕ → ℕ → Option ℕ
log_sense_param_code buf param = get_uint16 buf param

unfoldable pub log_sense_param_flags : List ℕ → ℕ → Option ℕ
log_sense_param_flags buf param = get_elem? buf (param + 2)

unfoldable pub log_sense_param_tmc : List ℕ → ℕ → Option ℕ
log_sense_param_tmc buf param = log_sense_param_flags buf param >>= λ f. some (f / 2 ^ 2 % 2 ^ 2)

unfoldable pub log_sense_param_fmt : List ℕ → ℕ → Option ℕ
log_sense_param_fmt buf param = log_sense_param_flags buf param >>= λ f. some (f % 2 ^ 2)

unfoldable pub log_sense_param_len : List ℕ → ℕ → Option ℕ
log_sense_param_len buf param = get_elem? buf (param + 3)

-- A parameter is an offset here, so it is never before the data.
unfoldable pub log_sense_param_is_valid : List ℕ → ℕ → ℕ → Option Bool
log_sense_param_is_valid buf data_len param =
    if ltb data_len param
    then some false
    else if ltb data_len (param + 4)
    then some false
    else log_sense_param_len buf param >>= λ len. some (not (ltb data_len (param + 4 + len)))

pub record InformationalExceptions : Type 0 where
  pub asc : ℕ
  pub ascq : ℕ
  pub temperature : ℕ

unfoldable pub exceptions_at : List ℕ → ℕ → Option InformationalExceptions
exceptions_at page param_data = do
  asc ← get_elem? page param_data
  ascq ← get_elem? page (param_data + 1)
  temperature ← get_elem? page (param_data + 2)
  some (record { asc = asc; ascq = ascq; temperature = temperature })

-- The loop over the parameters from `param` on, for `fuel` of them at most.
unfoldable pub find_exceptions : ℕ → List ℕ → ℕ → ℕ → Option (Option InformationalExceptions)
find_exceptions zero page page_len param = none
find_exceptions (suc fuel) page page_len param =
    log_sense_param_is_valid page page_len param >>= λ ok. elim ok [
      | false ↦ some none
      | true ↦ log_sense_param_code page param >>= λ code. elim (code == 0) [
        | true ↦ exceptions_at page (param + 4) >>= λ found. some (some found)
        | false ↦ log_sense_param_len page param >>= λ len.
            find_exceptions fuel page page_len (param + 4 + len)
      ]
    ]

-- The inner `none` is the result false.
unfoldable pub log_sense_page_informational_exceptions :
    List ℕ → ℕ → Option (Option InformationalExceptions)
log_sense_page_informational_exceptions page page_len = do
  ok ← log_sense_is_valid page page_len
  if not ok then some none else (do
    page_code ← log_sense_page_code page
    format ← log_sense_subpage_format page
    subpage ← log_sense_subpage_code page
    if not (page_code == 0x2F)
        then some none
        else if format && not (subpage == 0)
        then some none
        else find_exceptions (page_len + 1) page page_len 4)

-- `for_all_log_sense_pg_0_supported_pages` from offset `tmp` on, which n bytes are before `end`;
-- the entry is read before the test.
unfoldable pub supported_pages_from : ℕ → List ℕ → ℕ → Option (List ℕ)
supported_pages_from zero buf tmp = get_elem? buf tmp >>= λ supported_page. some []
supported_pages_from (suc n) buf tmp = do
  supported_page ← get_elem? buf tmp
  pages ← supported_pages_from n buf (tmp + 1)
  some (supported_page ∷ pages)

unfoldable pub supported_pages : List ℕ → ℕ → Option (List ℕ)
supported_pages buf data_len =
    log_sense_data_end buf data_len >>= λ end. supported_pages_from (end - 4) buf 4

-- `for_all_log_sense_pg_0_supported_subpages`, for n pairs.
unfoldable pub supported_subpages_from : ℕ → List ℕ → ℕ → Option (List (ℕ × ℕ))
supported_subpages_from zero buf tmp = do
  supported_page ← get_elem? buf tmp
  supported_subpage ← get_elem? buf (tmp + 1)
  some []
supported_subpages_from (suc n) buf tmp = do
  supported_page ← get_elem? buf tmp
  supported_subpage ← get_elem? buf (tmp + 1)
  pages ← supported_subpages_from n buf (tmp + 2)
  some ((supported_page, supported_subpage) ∷ pages)

unfoldable pub supported_subpages : List ℕ → ℕ → Option (List (ℕ × ℕ))
supported_subpages buf data_len =
    log_sense_data_end buf data_len >>= λ end. supported_subpages_from ((end - 4) / 2) buf 4
