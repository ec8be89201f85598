-- ===== src/Config/Examples.antt =====
-- The configuration of a server where the environment names the key file only, and a retention that
-- is too long for an int64.
use luxury_video_tool.Base.{◌≡◌, refl, String, none, some, false, str_eq, if◌then◌else◌}
use luxury_video_tool.Config.{
  Source, Config, pos, negsuc, hours, load, ◌>>=◌, or_fallback, duration_env, positive_int_env,
  bounded_int_env, float_env, checked, string_env, bool_env,
}
use luxury_video_tool.Config.Bounds.{IsBounded, load-IsBounded}

abbrev key_only : String → String
key_only name = if str_eq name "JWT_SIGNING_KEY_FILE" then "key " else ""

abbrev source : Source
source = record {
  getenv = key_only;
  level = λ raw. none;
  parse_duration = λ raw. none;
  parse_int = λ raw. none;
  parse_float = λ raw. none;
  lower = λ raw. raw;
}

abbrev config : Config
config = record {
  http_addr = "127.0.0.1:8080";
  log_level = pos 0;
  database_path = "./data/app.db";
  data_dir = "./data";
  jwt_signing_key_file = "key";
  access_token_ttl = 900000000000;
  refresh_token_ttl = 2592000000000000;
  login_rate_limit = 5;
  resolver_cache_ttl = 21600000000000;
  douyin_ttwid_file = "./data/douyin_ttwid.json";
  douyin_browser_path = "";
  worker_concurrency = 1;
  ffmpeg_path = "ffmpeg";
  ffprobe_path = "ffprobe";
  max_video_bytes = 2147483648;
  video_retention = pos 604800000000000;
  temp_retention = pos 86400000000000;
  public_base_url = "";
  allow_insecure_provider_settings = false;
  asr_provider = "siliconflow_sensevoice";
  asr_model = "FunAudioLLM/SenseVoiceSmall";
  dash_scope_api_key = "";
  dash_scope_endpoint = "https://dashscope.aliyuncs.com/api/v1";
  asr_vocabulary_id = "";
  silicon_flow_api_key = "";
  daily_asr_budget = "5";
  monthly_asr_budget = "20";
  asr_price_per_minute = "0";
}

-- A retention of 2562048 hours is one below zero.
hours_wrap : hours 2562048 ≡ negsuc 9223371273709551615
unfolding hours
hours_wrap = refl

config_loads : load source ≡ some config
unfolding load ◌>>=◌ or_fallback duration_env positive_int_env bounded_int_env float_env checked
    string_env hours bool_env
config_loads = refl

load-IsBounded_example : IsBounded config
load-IsBounded_example = load-IsBounded source config config_loads
