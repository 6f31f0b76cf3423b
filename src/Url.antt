-- ===== src/Url.antt =====
-- internal/services/shortener/url.go. `url.Parse`, `URL.String` and `net.ParseIP` are parameters
-- (`UrlLib`); `URL.Port` is modelled, as the validity test rests on how it cuts the host.
pub mod Fqdn
pub mod Normalize
use pet_urls.Prelude.{
  ℕ, suc, ◌-◌, Bytes, codes, Bool, true, false, not, ◌&&◌, ◌||◌, Option, none, some, List, [], ◌∷◌,
  ◌++◌, ◌==◌, ltb, leb, length, is_some, ◌=b=◌, if◌then◌else◌,
}
use pet_urls.Errors.{GoError, plain, Result, ok, err}
use pet_urls.Strings.{take, drop, contains, cut_suffix, to_lower}
use pet_urls.Strings.Utf8.{rune_count}
use pet_urls.Url.Fqdn.{is_valid_fqdn}

-- A parsed URL: the fields that the code reads or writes, and the rest (path, query and the raw
-- forms) as `tail`. `user` is nil or the userinfo.
pub record ParsedUrl : Type 0 where
  pub scheme : Bytes
  pub opaque : Bytes
  pub user : Option Bytes
  pub host : Bytes
  pub tail : Bytes
  pub fragment : Bytes

pub record UrlLib : Type 0 where
  pub parse : Bytes → Result ParsedUrl
  pub string : ParsedUrl → Bytes
  pub parse_ip : Bytes → Bool

-- `strings.LastIndexByte(host, ':')`: what stands from the last colon on, if there is one.
unfoldable pub from_last_colon : Bytes → Option Bytes
from_last_colon [] = none
from_last_colon (b ∷ s) =
    let later = from_last_colon s in
    elim later [ some t ↦ some t | none ↦ if b == b':' then some (b ∷ s) else none ]

unfoldable pub all_digits : Bytes → Bool
all_digits [] = true
all_digits (b ∷ s) = (leb b'0' b && leb b b'9') && all_digits s

-- `URL.Port`: the digits after the last colon, empty if the part is no port.
unfoldable pub port_of : Option Bytes → Bytes
unfolding all_digits
port_of none = []
port_of (some []) = []
port_of (some (colon ∷ digits)) = if all_digits digits then digits else []

unfoldable pub port : ParsedUrl → Bytes
unfolding from_last_colon port_of
port u = port_of (from_last_colon u.host)

-- `strings.CutSuffix(u.Host, ":"+u.Port())`.
unfoldable pub hostname : ParsedUrl → Bytes
unfolding cut_suffix port
hostname u = cut_suffix u.host (b':' ∷ port u)

abbrev pub last_is : ℕ → Bytes → Bool
last_is c [] = false
last_is c (b ∷ []) = b == c
last_is c (b ∷ d ∷ s) = last_is c (d ∷ s)

abbrev pub head_is : ℕ → Bytes → Bool
head_is c [] = false
head_is c (b ∷ s) = b == c

unfoldable pub trim_brackets : Bytes → Bytes
unfolding contains take drop
trim_brackets s =
    if contains s (b':' ∷ []) && (head_is b'[' s && last_is b']' s)
    then take (length s - 2) (drop 1 s)
    else s

unfoldable pub with_scheme : Bytes → Bytes
unfolding contains
with_scheme raw = if not (contains raw (codes "://")) then codes "http://" ++ raw else raw

module _ (lib : UrlLib) where
  unfoldable pub is_ip : Bytes → Bool
  unfolding trim_brackets
  is_ip s = lib.parse_ip (trim_brackets s)

  unfoldable pub url_is_valid : ParsedUrl → Bool
  unfolding is_ip hostname is_valid_fqdn
  url_is_valid u =
      if not (u.scheme =b= codes "http") && not (u.scheme =b= codes "https")
      then false
      else if not (u.opaque =b= [])
      then false
      else if is_some u.user
      then false
      else if not (is_valid_fqdn (hostname u)) && not (is_ip (hostname u))
      then false
      else true

  unfoldable pub finish : Result ParsedUrl → Result Bytes
  unfolding url_is_valid to_lower
  finish (err e) = err (plain "invalid url")
  finish (ok u) =
      if not (url_is_valid u)
      then err (plain "invalid url")
      else ok (lib.string (record u { scheme = to_lower u.scheme; fragment = [] }))

  unfoldable pub normalize_http : Bytes → Result Bytes
  unfolding rune_count with_scheme finish
  normalize_http raw =
      if ltb 2000 (rune_count raw)
      then err (plain "too long url")
      else finish (lib.parse (with_scheme raw))
