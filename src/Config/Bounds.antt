-- ===== src/Config/Bounds.antt =====
-- The bounds of a configuration that Load accepts.
use luxury_video_tool.Base.{
  ℕ, ◌≤◌, ◌<◌, ◌≡◌, ◌≢◌, ◌⊎◌, refl, String, Option, none, some, true, false, str_eq, eq_iff,
  trim_space, arith, Bool-cases, inl, inr, ltb,
}
use luxury_video_tool.Settings.{byte_count}
use luxury_video_tool.Config.{
  ℤ, pos, negsuc, Source, Config, hours, positive, or_fallback, in_bounds, ◌>>=◌, duration_env,
  positive_int_env, bounded_int_env, is_valid, checked, load,
}

bind_some {ℓ κ} :
    {A : Type ℓ} {B : Type κ} (m : Option A) (f : A → Option B) {b : B}
    → (m >>= f) ≡ some b
    → (a : A) × (m ≡ some a) × (f a ≡ some b)
unfolding ◌>>=◌
bind_some none f h = cc
bind_some (some a) f h = (a, refl, h)

-- Every value that is given has the property.
abbrev Gives {ℓ} : {B : Type ℓ} → (B → Type 0) → Option B → Type ℓ
Gives {B = B} P o = (b : B) → o ≡ some b → P b

bind-Gives {ℓ κ} :
    {A : Type ℓ} {B : Type κ} {P : B → Type 0} {m : Option A} {f : A → Option B}
    → ((a : A) → m ≡ some a → Gives P (f a))
    → Gives P (m >>= f)
bind-Gives {m = m} {f = f} g b h = let (a, e, k) = bind_some m f h in g a e b k

positive-pos : (o : Option ℤ) {n : ℕ} → positive o ≡ some n → 0 < n
positive-pos none h = cc
positive-pos (some (negsuc k)) h = cc
positive-pos (some (pos k)) h = ground arith

or_fallback-pos :
    (fallback : ℕ) (read : String → Option ℤ) (raw : String) {n : ℕ}
    → 0 < fallback
    → or_fallback fallback (λ r. positive (read r)) raw ≡ some n
    → 0 < n
unfolding or_fallback
or_fallback-pos fallback read raw {n} p h = elim (Bool-cases (str_eq (trim_space raw) "")) [
  | inl e ↦ let same : ◌≡◌ {A = Option ℕ} (some fallback) (some n) = rw e at h in ground arith
  | inr e ↦ positive-pos (read (trim_space raw)) (rw e at h)
]

in_bounds-bounds : (low high m : ℕ) {n : ℕ} → in_bounds low high m ≡ some n → (low ≤ n) × (n ≤ high)
in_bounds-bounds low high m {n} h = ground arith

-- What Load checks of each number and of the whole.
pub record IsBounded (c : Config) : Type 0 where
  pub access : 0 < c.access_token_ttl
  pub refresh : 0 < c.refresh_token_ttl
  pub login : 0 < c.login_rate_limit
  pub cache : 0 < c.resolver_cache_ttl
  pub workers : (1 ≤ c.worker_concurrency) × (c.worker_concurrency ≤ 2)
  pub bytes : 0 < c.max_video_bytes
  pub video : (n : ℕ) × (0 < n) × (c.video_retention ≡ hours n)
  pub temp : (n : ℕ) × (0 < n) × (c.temp_retention ≡ hours n)
  pub key_file : c.jwt_signing_key_file ≢ ""
  pub database_path : byte_count c.database_path ≤ 4096
  pub data_path : byte_count c.data_dir ≤ 4096
  pub key_path : byte_count c.jwt_signing_key_file ≤ 4096
  pub provider : c.asr_provider ≡ "siliconflow_sensevoice"
  pub address : (c.dash_scope_api_key ≡ "") ⊎ (c.public_base_url ≢ "")

differs : (a b : String) → str_eq a b ≡ false → a ≢ b
differs a b h e = let same : str_eq a b ≡ true = (eq_iff a b).1 e in ground arith

short : (n : ℕ) → ltb 4096 n ≡ false → n ≤ 4096
short n h = ground arith

valid-key_file : (c : Config) → is_valid c ≡ true → c.jwt_signing_key_file ≢ ""
unfolding is_valid
valid-key_file c v = differs c.jwt_signing_key_file "" (ground arith)

valid-database_path : (c : Config) → is_valid c ≡ true → byte_count c.database_path ≤ 4096
unfolding is_valid
valid-database_path c v = short _ (ground arith)

valid-data_path : (c : Config) → is_valid c ≡ true → byte_count c.data_dir ≤ 4096
unfolding is_valid
valid-data_path c v = short _ (ground arith)

valid-key_path : (c : Config) → is_valid c ≡ true → byte_count c.jwt_signing_key_file ≤ 4096
unfolding is_valid
valid-key_path c v = short _ (ground arith)

valid-provider : (c : Config) → is_valid c ≡ true → c.asr_provider ≡ "siliconflow_sensevoice"
unfolding is_valid
valid-provider c v = (eq_iff c.asr_provider "siliconflow_sensevoice").0 (ground arith)

valid-address :
    (c : Config) → is_valid c ≡ true → (c.dash_scope_api_key ≡ "") ⊎ (c.public_base_url ≢ "")
unfolding is_valid
valid-address c v = elim (Bool-cases (str_eq c.dash_scope_api_key "")) [
  | inl e ↦ inl ((eq_iff c.dash_scope_api_key "").0 e)
  | inr e ↦ inr (differs c.public_base_url "" (ground arith))
]

bounded-bounds :
    (s : Source) (name : String) (fallback low high : ℕ) {n : ℕ}
    → bounded_int_env s name fallback low high ≡ some n
    → (low ≤ n) × (n ≤ high)
unfolding bounded_int_env
bounded-bounds s name fallback low high h =
    let (m, _, w) = bind_some (positive_int_env s name fallback) (in_bounds low high) h in
    in_bounds-bounds low high m w

duration-pos :
    (s : Source) (name : String) (fallback : ℕ) {n : ℕ}
    → 0 < fallback
    → duration_env s name fallback ≡ some n
    → 0 < n
unfolding duration_env
duration-pos s name fallback p h = or_fallback-pos fallback s.parse_duration (s.getenv name) p h

integer-pos :
    (s : Source) (name : String) (fallback : ℕ) {n : ℕ}
    → 0 < fallback
    → positive_int_env s name fallback ≡ some n
    → 0 < n
unfolding positive_int_env
integer-pos s name fallback p h = or_fallback-pos fallback s.parse_int (s.getenv name) p h

checked_back : (c : Config) {c' : Config} → checked c ≡ some c' → (c ≡ c') × (is_valid c ≡ true)
unfolding checked
checked_back c {c'} h = elim (Bool-cases (is_valid c)) [
  | inl e ↦ let same : ◌≡◌ {A = Option Config} (some c) (some c') = rw e at h in (cc, e)
  | inr e ↦ let bad : ◌≡◌ {A = Option Config} none (some c') = rw e at h in cc
]

checked-Gives : (c : Config) → (is_valid c ≡ true → IsBounded c) → Gives IsBounded (checked c)
checked-Gives c g c' h = let (same, v) = checked_back c h in rw (← same) (g v)

-- A configuration that Load gives has durations, limits and sizes above zero, one or two workers,
-- retentions of a whole number of hours above zero, which may wrap around as an int64, a key file,
-- paths of the database, the data and the key file of at most 4096 bytes, the one provider of
-- speech recognition and, where there is a key of Aliyun, a public address.
pub load-IsBounded : (s : Source) (c : Config) → load s ≡ some c → IsBounded c
unfolding load
load-IsBounded s = bind-Gives λ level _. bind-Gives λ access e2. bind-Gives λ refresh e3.
    bind-Gives λ login e4. bind-Gives λ cache e5. bind-Gives λ workers e6. bind-Gives λ bytes e7.
      bind-Gives λ video e8. bind-Gives λ temp e9. bind-Gives λ daily _. bind-Gives λ monthly _.
        bind-Gives λ price _. checked-Gives _ (λ v. record {
          access = duration-pos s _ 900000000000 (omega arith) e2;
          refresh = duration-pos s _ 2592000000000000 (omega arith) e3;
          login = integer-pos s _ 5 (omega arith) e4;
          cache = duration-pos s _ 21600000000000 (omega arith) e5;
          workers = bounded-bounds s _ 1 1 2 e6;
          bytes = integer-pos s _ 2147483648 (omega arith) e7;
          video = (video, integer-pos s _ 168 (omega arith) e8, refl);
          temp = (temp, integer-pos s _ 24 (omega arith) e9, refl);
          key_file = valid-key_file _ v;
          database_path = valid-database_path _ v;
          data_path = valid-data_path _ v;
          key_path = valid-key_path _ v;
          provider = valid-provider _ v;
          address = valid-address _ v;
        })
