-- ===== src/Redis/Connect.antt =====
-- RedisConfig and the constructors of broker/redis_broker.rs and result/redis_result.rs. Opening a
-- client and its connection is the driver's; the scripts, which `connect` compiles, are the functions
-- of Redis/Scripts.
use capivara_rs.Prelude.{String}
use capivara_rs.Time.{Duration}
use capivara_rs.Error.{CapivaraError, broker, result_backend, Exec, err, pure, ◌>>=◌}
use capivara_rs.Registry.{Serde, value, malformed}
use capivara_rs.Redis.{or_err}
use capivara_rs.Redis.Results.{default_result_ttl, ttl_or_default}

pub record RedisConfig : Type 0 where
  pub url : String
  pub prefix : String

unfoldable pub new_config : String → RedisConfig
new_config url = record { url = url; prefix = "capivara:" }

unfoldable pub with_prefix : String → RedisConfig → RedisConfig
with_prefix prefix config = record config { prefix = prefix }

-- `redis::Client::open` and `ConnectionManager::new`, with the texts of their errors.
pub record Driver (Client Conn S : Type 0) : Type 0 where
  pub open_client : String → Serde Client
  pub new_manager : Client → S → Serde Conn × S

pub record RedisBroker (Conn : Type 0) : Type 0 where
  pub conn : Conn
  pub prefix : String

pub record RedisResultBackend (Conn : Type 0) : Type 0 where
  pub conn : Conn
  pub prefix : String
  pub ttl : Duration

-- `Ok(Self { conn, prefix: config.prefix, … })`
unfoldable pub broker_over : {Conn : Type 0} → RedisConfig → Conn → RedisBroker Conn
broker_over config conn = record { conn = conn; prefix = config.prefix }

module _ {Client Conn S : Type 0} (driver : Driver Client Conn S) where
  -- Both constructors begin with this, and differ in the error.
  unfoldable pub open_connection : (String → CapivaraError) → String → Exec S Conn
  open_connection e url s = elim (driver.open_client url) [
    | malformed message ↦ (err (e message), s)
    | value client ↦ let (r, s') = driver.new_manager client s in (or_err e r, s')
  ]

  unfoldable pub connect : RedisConfig → Exec S (RedisBroker Conn)
  unfolding open_connection broker_over
  connect config = do conn ← open_connection broker config.url; pure (broker_over config conn)

  unfoldable pub connect_with_ttl : RedisConfig → Duration → Exec S (RedisResultBackend Conn)
  unfolding open_connection
  connect_with_ttl config ttl = do
    conn ← open_connection result_backend config.url
    pure (record { conn = conn; prefix = config.prefix; ttl = ttl_or_default ttl })

  unfoldable pub connect_results : RedisConfig → Exec S (RedisResultBackend Conn)
  unfolding connect_with_ttl
  connect_results config = connect_with_ttl config default_result_ttl
