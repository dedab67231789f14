-- ===== src/Settings.antt =====
-- setup/configs and setup/bootstrap/loaders: what the service requires of its settings, and the
-- addresses that it makes of them. Reading the environment and reporting a refused setting is the
-- config library's; a float is a value of a type `F` with a test for `<=`.
pub mod Decimals
pub mod Addresses
use answer_service.Base.{ℕ, Bool, true, false, not, ◌&&◌, ◌||◌, List, [], ◌∷◌, ◌++◌, if◌then◌else◌}
use answer_service.Base.Int.{ℤ, pos, ltb_ℤ}
use answer_service.Base.Text.{Text, text, strip, is_empty}
use answer_service.Indexing.Values.{is_blank}
use answer_service.Settings.Decimals.{show_ℤ, ℤ_beq}

abbrev leb_ℤ : ℤ → ℤ → Bool
leb_ℤ a b = not (ltb_ℤ b a)

-- `low <= n <= high`
abbrev pub in_range : (low high n : ℤ) → Bool
in_range low high n = leb_ℤ low n && leb_ℤ n high

-- `PORT_MIN <= c.port <= PORT_MAX`, which the ASGI, NATS and PostgreSQL loaders ask for.
abbrev pub is_port : ℤ → Bool
is_port = in_range (pos 1) (pos 65535)

-- RedisConfig
pub record RedisConfig : Type 0 where
  pub host : Text
  pub port : ℤ
  pub user : Text
  pub password : Text
  pub worker_db : ℤ
  pub schedule_source_db : ℤ
  pub cache_db : ℤ

abbrev pub is_db : ℤ → Bool
is_db = in_range (pos 0) (pos 15)

-- `len({a, b, c}) == 3`
abbrev three_distinct : ℤ → ℤ → ℤ → Bool
three_distinct a b c = not (ℤ_beq a b) && not (ℤ_beq a c) && not (ℤ_beq b c)

-- The root validators of RedisConfigLoader.
unfoldable pub redis_valid : RedisConfig → Bool
redis_valid c =
    is_port c.port
    && (is_empty c.user || not (is_empty c.password))
    && is_db c.worker_db
    && is_db c.schedule_source_db
    && is_db c.cache_db
    && three_distinct c.worker_db c.schedule_source_db c.cache_db

abbrev pub address : Text → ℤ → Text
address host port = host ++ (text ":" ++ show_ℤ port)

abbrev pub credentials : (user password : Text) → Text
credentials user password = user ++ (text ":" ++ (password ++ text "@"))

-- `RedisConfig._uri`
unfoldable pub redis_uri : RedisConfig → ℤ → Text
redis_uri c db =
    if is_empty c.password
    then text "redis://" ++ (address c.host c.port ++ (text "/" ++ show_ℤ db))
    else text "redis://"
      ++ (credentials c.user c.password ++ (address c.host c.port ++ (text "/" ++ show_ℤ db)))

-- `worker_uri`, `schedule_source_uri` and `cache_uri`
unfoldable pub worker_uri : RedisConfig → Text
unfolding redis_uri
worker_uri c = redis_uri c c.worker_db

unfoldable pub schedule_source_uri : RedisConfig → Text
unfolding redis_uri
schedule_source_uri c = redis_uri c c.schedule_source_db

unfoldable pub cache_uri : RedisConfig → Text
unfolding redis_uri
cache_uri c = redis_uri c c.cache_db

-- NatsConfig
pub record NatsConfig : Type 0 where
  pub host : Text
  pub port : ℤ
  pub user : Text
  pub password : Text

-- `NatsConfig.uri`
unfoldable pub nats_uri : NatsConfig → Text
nats_uri c =
    if is_empty c.user
    then text "nats://" ++ address c.host c.port
    else text "nats://" ++ (credentials c.user c.password ++ address c.host c.port)

-- QdrantConfig
pub record QdrantConfig : Type 0 where
  pub host : Text
  pub port : ℤ
  pub api_key : Text
  pub collection_name : Text
  pub use_https : Bool
  pub prefer_grpc : Bool
  pub timeout_seconds : ℤ

-- `QdrantConfig.url`
unfoldable pub qdrant_url : QdrantConfig → Text
qdrant_url c =
    (if c.use_https then text "https" else text "http") ++ (text "://" ++ address c.host c.port)

-- The root validators of QdrantConfigLoader.
unfoldable pub qdrant_valid : QdrantConfig → Bool
qdrant_valid c =
    is_port c.port && not (is_blank c.collection_name) && ltb_ℤ (pos 0) c.timeout_seconds

-- SQLAlchemyConfig, the numbers of it.
pub record AlchemyConfig : Type 0 where
  pub pool_recycle : ℤ
  pub pool_size : ℤ
  pub max_overflow : ℤ

-- The root validators of SQLAlchemyConfigLoader.
unfoldable pub alchemy_valid : AlchemyConfig → Bool
alchemy_valid c =
    leb_ℤ (pos 1) c.pool_recycle
    && in_range (pos 1) (pos 1000) c.pool_size
    && leb_ℤ (pos 0) c.max_overflow

-- IndexingConfig, and the root validator of its loader.
pub record IndexingConfig : Type 0 where
  pub stuck_after_seconds : ℤ

unfoldable pub indexing_valid : IndexingConfig → Bool
indexing_valid c = leb_ℤ (pos 60) c.stuck_after_seconds

-- A float, and the literals that the loaders compare with.
pub record Floats : Type 1 where
  pub F : Type 0
  pub le : F → F → Bool
  pub minus_one : F
  pub zero : F
  pub one : F
  pub two : F

module _ (floats : Floats) where
  abbrev within : (low high x : floats.F) → Bool
  within low high x = floats.le low x && floats.le x high

  -- `x > 0.0`
  abbrev is_positive : floats.F → Bool
  is_positive x = floats.le floats.zero x && not (floats.le x floats.zero)

  -- SearchConfig
  pub record SearchConfig : Type 0 where
    pub dense_score_floor : floats.F
    pub lexical_relative_floor : floats.F
    pub lexical_absolute_floor : floats.F
    pub dense_weight : floats.F
    pub lexical_weight : floats.F

  -- The root validators of SearchConfigLoader.
  unfoldable pub search_valid : SearchConfig → Bool
  search_valid c =
      within floats.minus_one floats.one c.dense_score_floor
      && within floats.zero floats.one c.lexical_relative_floor
      && floats.le floats.zero c.lexical_absolute_floor
      && is_positive c.dense_weight
      && is_positive c.lexical_weight

  -- TaskIQConfig, the numbers of it.
  pub record TaskiqConfig : Type 0 where
    pub result_ex_time : ℤ
    pub default_retry_count : ℤ
    pub default_delay : floats.F
    pub max_delay_exponent : floats.F

  -- The root validators of TaskIQConfigLoader.
  unfoldable pub taskiq_valid : TaskiqConfig → Bool
  taskiq_valid c =
      leb_ℤ (pos 0) c.default_retry_count
      && floats.le floats.zero c.default_delay
      && floats.le floats.one c.max_delay_exponent
      && ltb_ℤ (pos 0) c.result_ex_time

  -- MistralConfig
  pub record MistralConfig : Type 0 where
    pub api_key : Text
    pub base_url : Text
    pub embedding_model : Text
    pub embedding_dimension : ℤ
    pub chat_model : Text
    pub temperature : floats.F
    pub max_concurrency : ℤ
    pub embedding_timeout_seconds : ℤ
    pub chat_timeout_seconds : ℤ

  -- The root validators of MistralConfigLoader.
  unfoldable pub mistral_valid : MistralConfig → Bool
  mistral_valid c =
      not (is_blank c.api_key)
      && ltb_ℤ (pos 0) c.embedding_dimension
      && within floats.zero floats.two c.temperature
      && ltb_ℤ (pos 0) c.max_concurrency
      && ltb_ℤ (pos 0) c.embedding_timeout_seconds
      && ltb_ℤ (pos 0) c.chat_timeout_seconds
