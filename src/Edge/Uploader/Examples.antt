-- ===== src/Edge/Uploader/Examples.antt =====
-- The uploader's theorems at concrete inputs.
use ambagrid.Common.{
  AnyOf, ◌⊎◌, ◌<◌, ◌*◌, ◌^◌, ◌≡◌, ◌≤◌, true, List, [], ◌∷◌, codes, ok, second, minute, arith,
}
use ambagrid.Edge.Errors.{no_faults}
use ambagrid.Edge.Domain.{Record}
use ambagrid.Edge.Store.Queries.{ready_rows, records_of}
use ambagrid.Edge.Store.History.{History}
use ambagrid.Edge.Uploader.Client.{BatchResponse}
use ambagrid.Edge.Uploader.Batch.{
  Config, Uploader, RecordFaults, Round, retry_delay, process_response,
}
use ambagrid.Edge.Uploader.Delay.{retry_delay-bounded}
use ambagrid.Edge.Uploader.Calls.{Grounds, process_response-History}
use ambagrid.Edge.Uploader.Session.{Batch}
use ambagrid.Edge.Samples.{sample_store, sample_files, sample_time, sample_db}

abbrev settings : Config
settings = record {
  gateway_id = codes "gw-1";
  batch_size = 50;
  batch_max_bytes = 1_048_576;
  poll_interval = 5 * second;
  base_delay = second;
  max_delay = 5 * minute;
  max_retries = 20;
}

abbrev uploader : Uploader
uploader = record { cfg = settings; tracked = true }

retry_delay-bounded_example :
    (retry_delay settings 3 ≤ 5 * minute)
    × (retry_delay settings 3 ≤ retry_delay settings 12)
    × ((retry_delay settings 3 ≡ second * 2 ^ 3)
        ⊎ ((retry_delay settings 3 ≡ 5 * minute) × (5 * minute < second * 2 ^ 3)))
retry_delay-bounded_example = retry_delay-bounded settings 3 12 (omega arith)

abbrev record_faults : RecordFaults
record_faults = record { queue = no_faults; tracker = no_faults }

-- The first record is accepted and the third rejected.
abbrev response : BatchResponse
response = record {
  accepted = 1 ∷ [];
  rejected =
      record { index = 1; sequence = 3; code = codes "invalid"; message = codes "bad payload" }
      ∷ [];
  request_id = codes "r-1";
}

abbrev round : Round
round = record {
  ready_at = sample_time;
  uploaded_at = sample_time;
  failure_at = sample_time;
  files = sample_files;
  ready_faults = no_faults;
  stats_faults = no_faults;
  contact_faults = no_faults;
  record_faults = λ _. record_faults;
  service = λ _. ok response;
}

-- What `Ready` hands out of the sample: the first record of each meter.
abbrev sample_records : List Record
sample_records = records_of (ready_rows sample_time 50 1_048_576 sample_db)

process_response-History_example :
    History
      (λ c. AnyOf (λ r. Grounds uploader response r c) sample_records)
      sample_store
      sample_db
      (process_response uploader
        (λ _. record_faults)
        response
        sample_time
        sample_time
        sample_records
        sample_db)
process_response-History_example =
    process_response-History sample_store uploader (λ _. record_faults) response sample_time
      sample_time sample_records sample_db
