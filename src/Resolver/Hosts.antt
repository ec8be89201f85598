-- ===== src/Resolver/Hosts.antt =====
-- AllowedHost and PublicIP of services/api_go/internal/resolver/input.go, and validateURL of
-- safehttp.go and of services/api_go/internal/media/download.go. A URL is what net/url makes of it.
pub mod Ranges
use luxury_video_tool.Base.{
  ℕ, String, Option, none, some, Bool, true, false, not, ◌&&◌, ◌||◌, List, [], ◌∷◌, if◌then◌else◌,
  ltb, leb, ◌==◌, str_eq, trim_space,
}
use Prim.Native.Char.{Char, code}

-- An address of four bytes, or of sixteen that are none of four.
pub data Ip : Type 0 where
  v4 : ℕ → ℕ → ℕ → ℕ → Ip
  v6 : List ℕ → Ip

abbrev all_zero : List ℕ → Bool
all_zero [] = true
all_zero (b ∷ bs) = b == 0 && all_zero bs

abbrev is_one : List ℕ → Bool
is_one [] = false
is_one (b ∷ []) = b == 1
is_one (b ∷ c ∷ bs) = b == 0 && is_one (c ∷ bs)

abbrev first_two : (ℕ → ℕ → Bool) → List ℕ → Bool
first_two p [] = false
first_two p (b ∷ []) = false
first_two p (b ∷ c ∷ bs) = p b c

-- IsLoopback, IsPrivate, IsUnspecified, IsMulticast and IsLinkLocalUnicast of Go's net.IP; its
-- link-local multicast addresses are multicast ones.
unfoldable pub is_special : Ip → Bool
is_special (v4 a b c d) =
    a == 127
    || (a == 10 || (a == 172 && (leb 16 b && leb b 31)) || (a == 192 && b == 168))
    || (a == 0 && b == 0 && c == 0 && d == 0)
    || (leb 224 a && leb a 239)
    || (a == 169 && b == 254)
is_special (v6 bs) =
    is_one bs
    || first_two (λ b c. leb 0xFC b && leb b 0xFD) bs
    || all_zero bs
    || first_two (λ b c. b == 0xFF) bs
    || first_two (λ b c. b == 0xFE && (leb 0x80 c && leb c 0xBF)) bs

-- What is special is no address for a global unicast; of four bytes the code asks for more.
unfoldable pub public_ip : Ip → Bool
unfolding is_special
public_ip (v4 a b c d) =
    if is_special (v4 a b c d)
    then false
    else not (
        a == 0
        || a == 127
        || (a == 100 && leb 64 b && leb b 127)
        || (a == 169 && b == 254)
        || leb 224 a)
public_ip (v6 bs) = not (is_special (v6 bs))

-- What net/url and net give of a URL, with the scheme in lower case, as url.Parse leaves it.
pub record Url : Type 0 where
  pub scheme : String
  pub has_user : Bool
  pub host : String
  pub port : String
  -- net.ParseIP of the host
  pub ip : Option Ip

-- strings.TrimSuffix(s, ".")
unfoldable pub trim_dot : String → String
trim_dot String.[] = String.[]
trim_dot (String.◌∷◌ c String.[]) = if code c == 46 then String.[] else String.◌∷◌ c String.[]
trim_dot (String.◌∷◌ c (String.◌∷◌ d s)) = String.◌∷◌ c (trim_dot (String.◌∷◌ d s))

-- The keys of allowedHosts
unfoldable pub is_listed : String → Bool
is_listed host =
    str_eq host "v.douyin.com"
    || str_eq host "www.douyin.com"
    || str_eq host "douyin.com"
    || str_eq host "www.iesdouyin.com"
    || str_eq host "iesdouyin.com"

unfoldable pub good_port : String → Bool
good_port port = str_eq port "" || str_eq port "443"

-- `lower` is strings.ToLower, by Unicode's tables.
module _ (lower : String → String) where
  unfoldable pub allowed_host : String → Bool
  unfolding trim_dot is_listed trim_space
  allowed_host host = is_listed (lower (trim_dot (trim_space host)))

  -- validateURL of safehttp.go: whether a page may be asked for.
  unfoldable pub valid_url : Url → Bool
  unfolding allowed_host good_port
  valid_url u = str_eq u.scheme "https" && not u.has_user && allowed_host u.host && good_port u.port

  -- CheckRedirect: at most five requests before this one.
  unfoldable pub redirects : ℕ → Url → Bool
  unfolding valid_url
  redirects before u = not (ltb 5 before) && valid_url u

-- validateMediaURL: any host, but no address that is not public.
unfoldable pub valid_media_url : Url → Bool
unfolding good_port public_ip
valid_media_url u =
    str_eq u.scheme "https"
    && not u.has_user
    && not (str_eq u.host "")
    && elim u.ip [ none ↦ true | some ip ↦ public_ip ip ]
    && good_port u.port

-- DialContext: the addresses of a host, of which the first is dialled if all are public.
unfoldable pub all_public : List Ip → Bool
unfolding public_ip
all_public [] = true
all_public (ip ∷ ips) = public_ip ip && all_public ips

unfoldable pub dial : List Ip → Option Ip
unfolding all_public
dial [] = none
dial (ip ∷ ips) = if all_public (ip ∷ ips) then some ip else none
