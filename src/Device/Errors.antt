-- ===== src/Device/Errors.antt =====
-- How arch/arch-linux.c classifies the outcome of a command.
use diskscan.Base.{ℕ, ◌<◌, ◌≡◌, ◌≢◌, ◌↔◌, arith, Bool, true, false, some, Option-cases, inl, inr}
use diskscan.Sense.Info.{SenseInfo}
use diskscan.Sense.{scsi_parse_sense}
use diskscan.Sense.Key.{scsi_parse_sense-sense_key-lt}
use diskscan.Device.Types.{error_none, error_unknown, SgReply}
use diskscan.Device.{sense_to_error, sg_result, SgResult}

-- Every sense key that can be parsed has a meaning, and only NO SENSE means no error.
sense_to_error_lem :
    (info : SenseInfo)
    → info.sense_key < 16
    → (sense_to_error info ≢ error_unknown)
      × ((sense_to_error info ≡ error_none) ↔ (info.sense_key ≡ 0))
unfolding sense_to_error
sense_to_error_lem info h = (ground arith, (ground arith, ground arith))

-- A command that comes back with sense data has an unknown error exactly if the sense data cannot be
-- parsed, and no error exactly if it can be and its key is NO SENSE.
pub sg_result-error :
    (buf_len : ℕ) (r : SgReply) {s : SgResult}
    → 0 < r.sb_len_wr
    → sg_result buf_len r ≡ some s
    → (parsed : Bool) × (info : SenseInfo) × (scsi_parse_sense r.sbp r.sb_len_wr
        ≡ some (parsed, info))
      × ((s.io_res.error ≡ error_unknown) ↔ (parsed ≡ false))
      × ((s.io_res.error ≡ error_none) ↔ ((parsed ≡ true) × (info.sense_key ≡ 0)))
unfolding sg_result
sg_result-error buf_len r {s} h e = elim (Option-cases (scsi_parse_sense r.sbp r.sb_len_wr)) [
  | inl q ↦ absurd (ground arith)
  | inr ((parsed, info), q) ↦
      let k = scsi_parse_sense-sense_key-lt r.sbp r.sb_len_wr q in
      let m = sense_to_error_lem info k in
      (parsed, info, q, (ground arith, ground arith), (ground arith, ground arith))
]
