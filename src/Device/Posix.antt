-- ===== src/Device/Posix.antt =====
-- The device layer of other systems, arch/arch-posix.c: plain reads and writes of a file. What `open`
-- answers with and without write permission, and what `pread` and `pwrite` return (`none` for -1),
-- are parameters over the kernel's state.
use diskscan.Base.{
  ℕ, Bool, true, false, not, Option, some, none, List, [], ltb, ◌==◌, if◌then◌else◌,
}
use diskscan.Sense.Info.{zero_info}
use diskscan.Device.Types.{
  data_full, data_partial, data_none, error_none, error_uncorrected, IoResult,
}

-- What a call leaves: its return value, `none` for -1, and `*io_res`.
unfoldable pub posix_result : ℕ → Option ℕ → IoResult → Option ℕ × IoResult
posix_result len_bytes none io_res =
    (none, record { result = data_none; error = error_uncorrected; info = zero_info; sense = [] })
posix_result len_bytes (some ret) io_res =
    if ret == len_bytes
    then (some ret, record io_res { result = data_full; error = error_none })
    else if ltb 0 ret
    then (some ret, record io_res { result = data_partial; error = error_none })
    else (some ret, record io_res { result = data_none; error = error_none })

module _ {K : Type 0} where
  -- The flag says whether writing is asked for.
  unfoldable pub posix_open : (Bool → K → Bool × K) → K → Bool × K
  posix_open sys_open k =
      let (opened, k') = sys_open true k in if not opened then sys_open false k' else (true, k')

  unfoldable pub posix_read :
      (K → ℕ → ℕ → Option ℕ × List ℕ × K)
      → K
      → ℕ
      → ℕ
      → IoResult
      → (Option ℕ × IoResult) × List ℕ × K
  posix_read pread k offset_bytes len_bytes io_res =
      let (ret, buf, k') = pread k offset_bytes len_bytes in
      (posix_result len_bytes ret io_res, buf, k')

  unfoldable pub posix_write :
      (K → ℕ → ℕ → List ℕ → Option ℕ × K)
      → K
      → ℕ
      → ℕ
      → List ℕ
      → IoResult
      → (Option ℕ × IoResult) × K
  posix_write pwrite k offset_bytes len_bytes buf io_res =
      let (ret, k') = pwrite k offset_bytes len_bytes buf in (posix_result len_bytes ret io_res, k')
