-- ===== src/Qos/Class.antt =====
-- pkg/qos/qos.go, `QoSClass`: a bucket with counters.
use local_web.Base.{ℕ, ◌≡◌, inl, inr, Bool, List, arith, if◌then◌else◌, Bool-cases, Bytes, length}
use local_web.Base.Int64.{inc_int64}
use local_web.Qos.Bucket.{TokenBucket, new_token_bucket, wait, add_int64}

-- Latency and jitter are durations; only copied.
pub record QosConfig : Type 0 where
  pub name : Bytes
  pub priority : ℕ
  pub bandwidth : ℕ
  pub burst : ℕ
  pub latency : ℕ
  pub jitter : ℕ

pub record ClassStats : Type 0 where
  pub bytes_sent : ℕ
  pub bytes_dropped : ℕ
  pub packets_sent : ℕ
  pub packets_dropped : ℕ
  pub avg_latency : ℕ
  pub max_latency : ℕ

pub record QosClass : Type 0 where
  pub config : QosConfig
  pub bucket : TokenBucket
  pub stats : ClassStats

abbrev pub no_stats : ClassStats
no_stats = record {
  bytes_sent = 0;
  bytes_dropped = 0;
  packets_sent = 0;
  packets_dropped = 0;
  avg_latency = 0;
  max_latency = 0;
}

abbrev pub new_qos_class : ℕ → QosConfig → QosClass
new_qos_class now config = record {
  config = config;
  bucket = new_token_bucket now config.burst config.bandwidth;
  stats = no_stats;
}

abbrev pub count_sent : ℕ → ClassStats → ClassStats
count_sent n st = record st {
  packets_sent = inc_int64 st.packets_sent;
  bytes_sent = add_int64 st.bytes_sent n;
}

abbrev pub count_dropped : ℕ → ClassStats → ClassStats
count_dropped n st = record st {
  packets_dropped = inc_int64 st.packets_dropped;
  bytes_dropped = add_int64 st.bytes_dropped n;
}

-- `Send`, with the times at which the wait tries; true is the nil error.
unfoldable pub send : (ℕ → ℕ → ℕ) → List ℕ → Bytes → QosClass → QosClass × Bool
send earned times payload c =
    let (b, ok) = wait earned times (length payload) c.bucket in
    let stats =
      if ok then count_sent (length payload) c.stats else count_dropped (length payload) c.stats in
    (record c { bucket = b; stats = stats }, ok)

-- The bytes that a class has been offered, as an int64.
abbrev pub offered : QosClass → ℕ
offered c = add_int64 c.stats.bytes_sent c.stats.bytes_dropped

-- Every byte that is offered is counted, as sent or as dropped, and the result says which.
pub offered-send :
    (earned : ℕ → ℕ → ℕ) (times : List ℕ) (payload : Bytes) (c : QosClass)
    → offered (send earned times payload c).0 ≡ add_int64 (offered c) (length payload)
unfolding send
offered-send earned times payload c =
    elim (Bool-cases (wait earned times (length payload) c.bucket).1) [
      | inl e ↦ rw e (omega arith)
      | inr e ↦ rw e (omega arith)
    ]
