-- ===== src/Device/Types.antt =====
-- `io_result_t` of include/arch.h, `disk_dev_t` of arch/arch-linux.h and the SCSI generic call.
use diskscan.Base.{ℕ, Bool, List}
use diskscan.Sense.Info.{SenseInfo}

pub data ResultData : Type 0 where
  data_full data_partial data_none : ResultData

pub data ResultError : Type 0 where
  error_none error_corrected error_uncorrected error_need_retry error_fatal error_unknown :
      ResultError

pub record IoResult : Type 0 where
  pub result : ResultData
  pub error : ResultError
  pub info : SenseInfo
  pub sense : List ℕ

pub record DiskDev : Type 0 where
  pub sector_size : ℕ

pub data Direction : Type 0 where
  to_dev from_dev : Direction

-- What goes into `sg_io_hdr_t`: the command, the transfer buffer and the room for sense data.
pub record SgHeader : Type 0 where
  pub direction : Direction
  pub cdb : List ℕ
  pub dxfer : List ℕ
  pub mx_sb_len : ℕ
  pub timeout : ℕ

-- What the kernel leaves there: whether the call failed, the two buffers, the bytes not
-- transferred, the length of the sense data and the SCSI status.
pub record SgReply : Type 0 where
  pub failed : Bool
  pub dxfer : List ℕ
  pub sbp : List ℕ
  pub resid : ℕ
  pub sb_len_wr : ℕ
  pub status : ℕ
