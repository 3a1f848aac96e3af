-- ===== src/Ata/Registers.antt =====
-- The ATA registers that a bridge loads from the pass-through blocks of libscsicmd/include/ata.h,
-- written from the block's layout and independent of the builders.
use diskscan.Base.{
  ℕ, ◌+◌, ◌*◌, ◌/◌, ◌%◌, ◌^◌, ◌≤◌, ◌≡◌, refl, Bool, List, length, Option, some, get_elem?, ◌>>=◌,
  arith,
}
use diskscan.Cdb.Rw.{Room, done, byte, room}
use diskscan.Ata.Passthrough.{cdb_ata_passthrough_12, cdb_ata_passthrough_16}

pub record Registers : Type 0 where
  pub operation : ℕ
  pub protocol : ℕ
  pub command : ℕ
  pub feature : ℕ
  pub lba : ℕ
  pub sector_count : ℕ

unfoldable pub registers_12 : List ℕ → Option Registers
registers_12 cdb = do
  op ← get_elem? cdb 0
  protocol ← get_elem? cdb 1
  feature ← get_elem? cdb 3
  count ← get_elem? cdb 4
  l0 ← get_elem? cdb 5
  l1 ← get_elem? cdb 6
  l2 ← get_elem? cdb 7
  device ← get_elem? cdb 8
  command ← get_elem? cdb 9
  some (record {
    operation = op;
    protocol = protocol / 2 % 16;
    command = command;
    feature = feature;
    lba = l0 + l1 * 2 ^ 8 + l2 * 2 ^ 16 + device % 16 * 2 ^ 24;
    sector_count = count;
  })

unfoldable pub registers_16 : List ℕ → Option Registers
registers_16 cdb = do
  op ← get_elem? cdb 0
  protocol ← get_elem? cdb 1
  f1 ← get_elem? cdb 3
  f0 ← get_elem? cdb 4
  c1 ← get_elem? cdb 5
  c0 ← get_elem? cdb 6
  l3 ← get_elem? cdb 7
  l0 ← get_elem? cdb 8
  l4 ← get_elem? cdb 9
  l1 ← get_elem? cdb 10
  l5 ← get_elem? cdb 11
  l2 ← get_elem? cdb 12
  command ← get_elem? cdb 14
  some (record {
    operation = op;
    protocol = protocol / 2 % 16;
    command = command;
    feature = f0 + f1 * 2 ^ 8;
    lba = l0 + l1 * 2 ^ 8 + l2 * 2 ^ 16 + l3 * 2 ^ 24 + l4 * 2 ^ 32 + l5 * 2 ^ 40;
    sector_count = c0 + c1 * 2 ^ 8;
  })

abbrev pub registers : ℕ → ℕ → ℕ → ℕ → ℕ → ℕ → Registers
registers op protocol command feature lba count = record {
  operation = op;
  protocol = protocol;
  command = command;
  feature = feature;
  lba = lba;
  sector_count = count;
}

same_registers :
    (op c : ℕ) {p p' f f' l l' n n' : ℕ}
    → p ≡ p'
    → f ≡ f'
    → l ≡ l'
    → n ≡ n'
    → some (registers op p c f l n) ≡ some (registers op p' c f' l' n')
same_registers op c p f l n = λ i. some (registers op (p i) c (f i) (l i) (n i))

passthrough_12_in :
    {cdb : List ℕ} (command feature lba count protocol ck : ℕ) (dir_in : Bool)
    → Room 12 cdb
    → registers_12 (cdb_ata_passthrough_12 cdb command feature lba count protocol dir_in ck).0
      ≡ some (
          registers 0xA1
            (protocol % 16)
            (command % 2 ^ 8)
            (feature % 2 ^ 8)
            (lba % 2 ^ 28)
            (count % 2 ^ 8))
unfolding registers_12 cdb_ata_passthrough_12
passthrough_12_in command feature lba count protocol ck dir_in
      (byte _ (
        byte _ (
          byte _ (
            byte _
              (byte _ (byte _ (byte _ (byte _ (byte _ (byte _ (byte _ (byte _ done)))))))))))) =
    same_registers 0xA1 (command % 2 ^ 8) (omega arith) refl (omega arith) refl

passthrough_16_in :
    {cdb : List ℕ} (command feature lba count protocol ck device : ℕ) (dir_in : Bool)
    → Room 16 cdb
    → registers_16
        (cdb_ata_passthrough_16 cdb command feature lba count protocol dir_in ck device).0
      ≡ some (
          registers 0x85
            (protocol % 16)
            (command % 2 ^ 8)
            (feature % 2 ^ 16)
            (lba % 2 ^ 48)
            (count % 2 ^ 16))
unfolding registers_16 cdb_ata_passthrough_16
passthrough_16_in command feature lba count protocol ck device dir_in
      (byte _ (
        byte _ (
          byte _ (
            byte _ (
              byte _ (
                byte _ (
                  byte _ (
                    byte _ (
                      byte _ (
                        byte _
                          (byte _ (byte _ (byte _ (byte _ (byte _ (byte _ done)))))))))))))))) =
    same_registers 0x85 (command % 2 ^ 8) (omega arith) (omega arith) (omega arith) (omega arith)

-- In any buffer with room for the block, the two pass-through builders ask for the command, the
-- protocol modulo 16, and the features, address and count: of 8, 28 and 8 bits in the short block,
-- of 16, 48 and 16 bits in the long one.
pub passthrough_registers :
    (cdb : List ℕ) (command feature lba count protocol ck device : ℕ) (dir_in : Bool)
    → 16 ≤ length cdb
    → (registers_12 (cdb_ata_passthrough_12 cdb command feature lba count protocol dir_in ck).0
        ≡ some (
            registers 0xA1
              (protocol % 16)
              (command % 2 ^ 8)
              (feature % 2 ^ 8)
              (lba % 2 ^ 28)
              (count % 2 ^ 8)))
      × (registers_16
            (cdb_ata_passthrough_16 cdb command feature lba count protocol dir_in ck device).0
          ≡ some (
              registers 0x85
                (protocol % 16)
                (command % 2 ^ 8)
                (feature % 2 ^ 16)
                (lba % 2 ^ 48)
                (count % 2 ^ 16)))
passthrough_registers cdb command feature lba count protocol ck device dir_in h = (
  passthrough_12_in command feature lba count protocol ck dir_in (room 12 cdb (omega arith)),
  passthrough_16_in command feature lba count protocol ck device dir_in (room 16 cdb h),
)
