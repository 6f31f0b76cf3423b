-- ===== src/Examples/Urls.antt =====
-- The theorems on URLs and names at concrete texts.
use pet_urls.Prelude.{◌≡◌, refl, ◌↔◌, ◌≤◌, codes, true, false}
use pet_urls.Errors.{ok}
use pet_urls.Strings.Utf8.{rune_count}
use pet_urls.Url.{ParsedUrl, with_scheme, normalize_http}
use pet_urls.Url.Normalize.{IsHttpUrl, printed, normalize_http_iff}
use pet_urls.Url.Fqdn.{is_valid_fqdn}
use pet_urls.Examples.Memory.{plain_urls, plain_parse}

-- Names that the tests of url_test.go reject and accept.
names :
    (is_valid_fqdn (codes ".a") ≡ false)
    × (is_valid_fqdn (codes "-example.com") ≡ false)
    × (is_valid_fqdn (codes "") ≡ false)
    × (is_valid_fqdn (codes "example.com") ≡ true)
unfolding is_valid_fqdn
names = (refl, refl, refl, refl)

normalize_http_iff_example :
    (normalize_http plain_urls (codes "a.io") ≡ ok (codes "http://a.io")) ↔ (
      (u : ParsedUrl) × (rune_count (codes "a.io") ≤ 2000)
      × (plain_parse (with_scheme (codes "a.io")) ≡ ok u)
      × IsHttpUrl plain_urls u
      × (codes "http://a.io" ≡ plain_urls.string (printed plain_urls u)))
normalize_http_iff_example = normalize_http_iff plain_urls (codes "a.io") (codes "http://a.io")
