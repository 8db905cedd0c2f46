-- ===== src/Worker/DeliveryEngine/Sample.antt =====
-- A worker for tests: the default settings, and an endpoint that answers 500.
use eventmesh.Base.{ℕ, ◌+◌, some, [], ◌∷◌}
use eventmesh.Common.Enums.{CircuitState}
use eventmesh.Common.Ssrf.Sample.{network}
use eventmesh.Database.{Tables}
use eventmesh.Database.Sample.{tables, hook}
use eventmesh.Worker.DeliveryEngine.{Settings, Codecs, Attempt, HttpReply, World}

abbrev pub settings : Settings
settings = record {
  max_endpoint_url_length = 2048;
  circuit_failure_threshold = 5;
  circuit_open_duration = 30_000_000;
  circuit_half_open_max_requests = 1;
  retry = record { base = 1000; max_delay = 32000; max_attempts = 6; jitter_ratio = 200 };
}

abbrev pub codecs : Codecs
codecs = record {
  decrypt_secret = λ text. some (1 ∷ []);
  hmac_sha256 = λ key message. message;
  dumps = λ body. body.event_id ∷ body.attempt_number ∷ [];
}

abbrev pub failing : ℕ → Attempt
failing i = record {
  new_id = 100 + i;
  created_at = 5000;
  asked_at = 5000;
  failed_at = 5012;
  started_at = 5000;
  signed_at = 5;
  completed_at = 5012;
  scheduled_at = 5012;
  latency_ms = 12;
  network = network;
  reply = HttpReply.response 500;
  draw = λ low high. low;
}

abbrev pub world : World
world = record { db = tables; sent = []; metrics = [] }

abbrev pub tripped_tables : Tables
tripped_tables = record tables {
  endpoints = record hook { circuit_state = CircuitState.opened } ∷ [];
}
