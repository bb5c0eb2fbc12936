-- ===== src/Edge/Store/Capacity.antt =====
-- config.go and capacity.go: the limits of the queue. Sizes are int64 and percentages int; a
-- configuration that passed `validateConfig` has none below 0, so they are natural numbers, and
-- the products stay below 2 ^ 63 for every storage budget up to 2 ^ 56 bytes.
use ambagrid.Common.{
  ℕ, ◌+◌, ◌-◌, ◌*◌, ◌/◌, ◌%◌, ◌^◌, ◌||◌, ◌&&◌, Option, none, some, Text, length, ltb, leb, ◌==◌,
  if◌then◌else◌, is_empty, Result, ok, err, ◌>>=◌, ◌>>◌, refuse_if,
}
use ambagrid.Edge.Errors.{Error, config_invalid, filesystem, filesystem_reserve, storage_capacity}
use ambagrid.Edge.Domain.{Event}

pub record Config : Type 0 where
  pub path : Text
  pub site_id : Text
  pub gateway_id : Text
  pub max_storage_bytes : ℕ
  pub max_event_bytes : ℕ
  pub warning_percent : ℕ
  pub critical_reserve_percent : ℕ
  pub min_filesystem_free_bytes : ℕ

-- The last test of the source refuses a negative `MinFilesystemFreeBytes`, which no number here is.
unfoldable pub validate_config : Config → Result Error (Unit {0})
validate_config c = do
  refuse_if (is_empty c.path) config_invalid
  refuse_if (is_empty c.site_id) config_invalid
  refuse_if (is_empty c.gateway_id) config_invalid
  refuse_if (ltb c.max_storage_bytes (2 ^ 20)) config_invalid
  refuse_if (ltb c.max_event_bytes 1 || ltb (c.max_storage_bytes * 5 / 100) c.max_event_bytes)
      config_invalid
  refuse_if (ltb c.warning_percent 1 || leb 100 c.warning_percent) config_invalid
  refuse_if (ltb c.critical_reserve_percent 1 || leb 100 c.critical_reserve_percent) config_invalid
  refuse_if (leb (100 - c.critical_reserve_percent) c.warning_percent) config_invalid

-- The default of `Open` for an unset event size.
unfoldable pub default_event_bytes : Config → Config
default_event_bytes c =
    if c.max_event_bytes == 0
    then record c {
      max_event_bytes =
          if ltb (c.max_storage_bytes * 5 / 100) (2 ^ 20)
          then c.max_storage_bytes * 5 / 100
          else 2 ^ 20;
    }
    else c

-- An opened store: its configuration and SQLite's page size.
pub record Store : Type 0 where
  pub cfg : Config
  pub page_size : ℕ

unfoldable pub payload_capacity : Config → ℕ
payload_capacity c = c.max_storage_bytes * 65 / 100

unfoldable pub normal_admission_limit : Config → ℕ
unfolding payload_capacity
normal_admission_limit c = payload_capacity c * (100 - c.critical_reserve_percent) / 100

unfoldable pub database_budget : Config → ℕ
database_budget c = c.max_storage_bytes * 80 / 100

unfoldable pub wal_budget : ℕ → ℕ
wal_budget max_storage_bytes = max_storage_bytes * 5 / 100

unfoldable pub write_headroom : Store → Event → ℕ
write_headroom s e =
    let record_bytes = length e.payload + length e.device_id + length e.mqtt_topic + 64 in
    2 * (record_bytes + 2 * s.page_size)

abbrev pub max_int64 : ℕ
max_int64 = 2 ^ 63 - 1

-- `filesystemFreeBytes` on the answer of statfs: free blocks and the block size, or a failure.
-- `available * blockSize` is computed in uint64.
unfoldable pub filesystem_free_bytes : Option (ℕ × ℕ) → Result Error ℕ
filesystem_free_bytes none = err filesystem
filesystem_free_bytes (some (available, block_size)) =
    if ltb 0 block_size && ltb (max_int64 / block_size) available
    then ok max_int64
    else ok ((available * block_size) % 2 ^ 64)

-- One `os.Stat`: a size, a file that does not exist, or another failure.
pub data FileStat : Type 0 where
  size : ℕ → FileStat
  missing unreadable : FileStat

add_file : FileStat → ℕ → Result Error ℕ
add_file (size n) bytes = ok (bytes + n)
add_file missing bytes = ok bytes
add_file unreadable bytes = err filesystem

-- What the operating system answers about the queue's files.
pub record FileSystem : Type 0 where
  pub statfs : Option (ℕ × ℕ)
  pub database_file : FileStat
  pub wal_file : FileStat
  pub shm_file : FileStat

unfoldable pub queue_disk_bytes : FileSystem → Result Error ℕ
unfolding add_file
queue_disk_bytes fs = do
  a ← add_file fs.database_file 0
  b ← add_file fs.wal_file a
  add_file fs.shm_file b

-- `checkAdmission` (mutations.go): room on the disk and within the storage budget.
unfoldable pub check_admission : Store → FileSystem → Event → Result Error (Unit {0})
check_admission s fs e = do
  let headroom = write_headroom s e
  free ← filesystem_free_bytes fs.statfs
  refuse_if
      (ltb 0 s.cfg.min_filesystem_free_bytes
        && (ltb free s.cfg.min_filesystem_free_bytes
            || ltb (free - s.cfg.min_filesystem_free_bytes) headroom))
      filesystem_reserve
  disk ← queue_disk_bytes fs
  refuse_if (leb s.cfg.max_storage_bytes disk || ltb (s.cfg.max_storage_bytes - disk) headroom)
      storage_capacity
