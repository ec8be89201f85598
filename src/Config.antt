-- ===== src/Config.antt =====
-- services/api_go/internal/config/config.go: what Load makes of the environment. What strconv and
-- time read of a text are functions; the message of an error is not modelled.
pub mod Bounds
mod Examples
use luxury_video_tool.Base.{
  ℕ, ◌-◌, ◌*◌, ◌%◌, ◌^◌, String, Option, none, some, Bool, true, false, not, ◌&&◌, ◌||◌,
  if◌then◌else◌, ltb, leb, ◌==◌, str_eq, trim_space,
}
use Prim.Native.Char.{Char, code}
use luxury_video_tool.Settings.{byte_count}

-- An int64; negsuc n is - 1 - n.
pub data ℤ : Type 0 where
  pos negsuc : ℕ → ℤ

-- The environment, and the readers of texts: a level, a duration in nanoseconds, an integer, a
-- floating-point number with whether it is below zero, each none for a text that is none; and
-- strings.ToLower.
pub record Source : Type 0 where
  pub getenv : String → String
  pub level : String → Option ℤ
  pub parse_duration : String → Option ℤ
  pub parse_int : String → Option ℤ
  pub parse_float : String → Option (Bool × String)
  pub lower : String → String

pub record Config : Type 0 where
  pub http_addr : String
  pub log_level : ℤ
  pub database_path : String
  pub data_dir : String
  pub jwt_signing_key_file : String
  pub access_token_ttl : ℕ
  pub refresh_token_ttl : ℕ
  pub login_rate_limit : ℕ
  pub resolver_cache_ttl : ℕ
  pub douyin_ttwid_file : String
  pub douyin_browser_path : String
  pub worker_concurrency : ℕ
  pub ffmpeg_path : String
  pub ffprobe_path : String
  pub max_video_bytes : ℕ
  pub video_retention : ℤ
  pub temp_retention : ℤ
  pub public_base_url : String
  pub allow_insecure_provider_settings : Bool
  pub asr_provider : String
  pub asr_model : String
  pub dash_scope_api_key : String
  pub dash_scope_endpoint : String
  pub asr_vocabulary_id : String
  pub silicon_flow_api_key : String
  pub daily_asr_budget : String
  pub monthly_asr_budget : String
  pub asr_price_per_minute : String

-- A product of int64s, which wraps around.
unfoldable pub wrapped : ℕ → ℤ
wrapped n = let m : ℕ = n % 2 ^ 64 in if ltb m (2 ^ 63) then pos m else negsuc (2 ^ 64 - 1 - m)

-- time.Duration(n) * time.Hour
unfoldable pub hours : ℕ → ℤ
unfolding wrapped
hours n = wrapped (n * 3600000000000)

abbrev pub positive : Option ℤ → Option ℕ
positive none = none
positive (some (negsuc n)) = none
positive (some (pos n)) = if n == 0 then none else some n

abbrev pub not_negative : Option (Bool × String) → Option String
not_negative none = none
not_negative (some (is_below, x)) = if is_below then none else some x

-- strings.TrimRight(value, "/")
unfoldable pub trim_slashes : String → String
trim_slashes String.[] = String.[]
trim_slashes (String.◌∷◌ c s) =
    let rest = trim_slashes s in
    if code c == 47 && str_eq rest "" then String.[] else String.◌∷◌ c rest

unfoldable pub bool_word : Bool → String → Bool
bool_word fallback word =
    if str_eq word "1" || str_eq word "true" || str_eq word "yes" || str_eq word "on"
    then true
    else if str_eq word "0" || str_eq word "false" || str_eq word "no" || str_eq word "off"
    then false
    else fallback

-- The value of the variable, without blanks around it, or the fallback.
unfoldable pub or_fallback {ℓ} : {A : Type ℓ} → A → (String → Option A) → String → Option A
unfolding trim_space
or_fallback fallback read raw =
    if str_eq (trim_space raw) "" then some fallback else read (trim_space raw)

abbrev pub in_bounds : ℕ → ℕ → ℕ → Option ℕ
in_bounds low high n = if ltb n low || ltb high n then none else some n

unfoldable pub ◌>>=◌ {ℓ κ} : {A : Type ℓ} {B : Type κ} → Option A → (A → Option B) → Option B
none >>= f = none
(some a) >>= f = f a

infixl 1 ◌>>=◌
module _ (s : Source) where
  unfoldable pub string_env : String → String → String
  unfolding trim_space
  string_env name fallback =
      if str_eq (trim_space (s.getenv name)) "" then fallback else trim_space (s.getenv name)

  unfoldable pub duration_env : String → ℕ → Option ℕ
  unfolding or_fallback
  duration_env name fallback =
      or_fallback fallback (λ raw. positive (s.parse_duration raw)) (s.getenv name)

  -- positiveInt64Env is the same for an int64.
  unfoldable pub positive_int_env : String → ℕ → Option ℕ
  unfolding or_fallback
  positive_int_env name fallback =
      or_fallback fallback (λ raw. positive (s.parse_int raw)) (s.getenv name)

  unfoldable pub bounded_int_env : String → ℕ → ℕ → ℕ → Option ℕ
  unfolding positive_int_env
  bounded_int_env name fallback low high = positive_int_env name fallback >>= in_bounds low high

  unfoldable pub float_env : String → String → Option String
  unfolding or_fallback
  float_env name fallback =
      or_fallback fallback (λ raw. not_negative (s.parse_float raw)) (s.getenv name)

  unfoldable pub bool_env : String → Bool → Bool
  unfolding trim_space bool_word
  bool_env name fallback = bool_word fallback (s.lower (trim_space (s.getenv name)))

-- The checks at the end of Load.
unfoldable pub is_valid : Config → Bool
unfolding byte_count
is_valid c =
    not (str_eq c.jwt_signing_key_file "")
    && not (
        ltb 4096 (byte_count c.database_path)
        || ltb 4096 (byte_count c.data_dir)
        || ltb 4096 (byte_count c.jwt_signing_key_file))
    && str_eq c.asr_provider "siliconflow_sensevoice"
    && (str_eq c.dash_scope_api_key "" || not (str_eq c.public_base_url ""))

unfoldable pub checked : Config → Option Config
unfolding is_valid
checked c = if is_valid c then some c else none

unfoldable pub load : Source → Option Config
unfolding trim_space trim_slashes
load s = do
  level ← or_fallback (pos 0) s.level (s.getenv "LOG_LEVEL")
  access ← duration_env s "ACCESS_TOKEN_TTL" 900000000000
  refresh ← duration_env s "REFRESH_TOKEN_TTL" 2592000000000000
  login ← positive_int_env s "LOGIN_RATE_LIMIT_PER_MINUTE" 5
  cache ← duration_env s "RESOLVER_CACHE_TTL" 21600000000000
  workers ← bounded_int_env s "WORKER_CONCURRENCY" 1 1 2
  bytes ← positive_int_env s "MAX_VIDEO_BYTES" 2147483648
  video ← positive_int_env s "RETENTION_VIDEO_HOURS" 168
  temp ← positive_int_env s "RETENTION_TEMP_HOURS" 24
  daily ← float_env s "DAILY_ASR_BUDGET_CNY" "5"
  monthly ← float_env s "MONTHLY_ASR_BUDGET_CNY" "20"
  price ← float_env s "ASR_PRICE_PER_MINUTE_CNY" "0"
  checked (record {
    http_addr = string_env s "HTTP_ADDR" "127.0.0.1:8080";
    log_level = level;
    database_path = string_env s "DATABASE_PATH" "./data/app.db";
    data_dir = string_env s "DATA_DIR" "./data";
    jwt_signing_key_file = trim_space (s.getenv "JWT_SIGNING_KEY_FILE");
    access_token_ttl = access;
    refresh_token_ttl = refresh;
    login_rate_limit = login;
    resolver_cache_ttl = cache;
    douyin_ttwid_file = string_env s "DOUYIN_TTWID_FILE" "./data/douyin_ttwid.json";
    douyin_browser_path = trim_space (s.getenv "DOUYIN_BROWSER_PATH");
    worker_concurrency = workers;
    ffmpeg_path = string_env s "FFMPEG_PATH" "ffmpeg";
    ffprobe_path = string_env s "FFPROBE_PATH" "ffprobe";
    max_video_bytes = bytes;
    video_retention = hours video;
    temp_retention = hours temp;
    public_base_url = trim_slashes (trim_space (s.getenv "PUBLIC_BASE_URL"));
    allow_insecure_provider_settings = bool_env s "ALLOW_INSECURE_PROVIDER_SETTINGS" false;
    asr_provider = string_env s "ASR_PROVIDER" "siliconflow_sensevoice";
    asr_model = string_env s "ASR_MODEL" "FunAudioLLM/SenseVoiceSmall";
    dash_scope_api_key = trim_space (s.getenv "ALIYUN_DASHSCOPE_API_KEY");
    dash_scope_endpoint = string_env s "DASHSCOPE_ENDPOINT" "https://dashscope.aliyuncs.com/api/v1";
    asr_vocabulary_id = trim_space (s.getenv "ASR_VOCABULARY_ID");
    silicon_flow_api_key = trim_space (s.getenv "SILICONFLOW_API_KEY");
    daily_asr_budget = daily;
    monthly_asr_budget = monthly;
    asr_price_per_minute = price;
  })
