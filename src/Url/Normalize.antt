-- ===== src/Url/Normalize.antt =====
-- What `normalizeHTTP` accepts and returns.
use pet_urls.Prelude.{
  ◌≤◌, ◌≡◌, refl, ◌⊎◌, ◌↔◌, inl, inr, Bytes, codes, true, none, [], arith, =b=_iff,
}
use pet_urls.Errors.{Result, ok, err}
use pet_urls.Strings.{contains, to_lower}
use pet_urls.Strings.Utf8.{rune_count}
use pet_urls.Url.{
  ParsedUrl, UrlLib, port, hostname, is_ip, url_is_valid, with_scheme, finish, normalize_http,
}
use pet_urls.Url.Fqdn.{is_valid_fqdn}

with_scheme_of_contains : (raw : Bytes) → contains raw (codes "://") ≡ true → with_scheme raw ≡ raw
unfolding with_scheme
with_scheme_of_contains raw h = rw h

module _ (lib : UrlLib) where
  -- An absolute HTTP URL with no userinfo, whose host is a domain name or an IP address.
  pub record IsHttpUrl (u : ParsedUrl) : Type 0 where
    pub scheme : (u.scheme ≡ codes "http") ⊎ (u.scheme ≡ codes "https")
    pub opaque : u.opaque ≡ []
    pub user : u.user ≡ none
    pub host : (is_valid_fqdn (hostname u) ≡ true) ⊎ (is_ip lib (hostname u) ≡ true)

  url_is_valid_sound : (u : ParsedUrl) → url_is_valid lib u ≡ true → IsHttpUrl u
  unfolding url_is_valid
  url_is_valid_sound u h = record {
    scheme = ground (arith, =b=_iff u.scheme (codes "http"), =b=_iff u.scheme (codes "https"));
    opaque = ground (arith, =b=_iff u.opaque []);
    user = ground arith;
    host = ground arith;
  }

  url_is_valid_complete : (u : ParsedUrl) → IsHttpUrl u → url_is_valid lib u ≡ true
  unfolding url_is_valid
  url_is_valid_complete u h = ground (
    arith,
    =b=_iff u.scheme (codes "http"),
    =b=_iff u.scheme (codes "https"),
    =b=_iff u.opaque [],
  )

  -- The URL that is printed: the parsed one with its fragment dropped.
  abbrev pub printed : ParsedUrl → ParsedUrl
  printed u = record u { scheme = to_lower u.scheme; fragment = [] }

  to_lower-scheme : (u : ParsedUrl) → IsHttpUrl u → to_lower u.scheme ≡ u.scheme
  unfolding to_lower
  to_lower-scheme u h = elim h.scheme [ inl p ↦ rw p | inr s ↦ rw s ]

  pub IsHttpUrl-printed : (u : ParsedUrl) → IsHttpUrl u → IsHttpUrl (printed u)
  unfolding hostname port
  IsHttpUrl-printed u h = record {
    scheme = rw (to_lower-scheme u h) h.scheme;
    opaque = h.opaque;
    user = h.user;
    host = h.host;
  }

  finish_sound :
      (r : Result ParsedUrl) (out : Bytes)
      → finish lib r ≡ ok out
      → (u : ParsedUrl) × (r ≡ ok u) × IsHttpUrl u × (out ≡ lib.string (printed u))
  unfolding finish
  finish_sound (err e) out h = cc
  finish_sound (ok u) out h = (u, refl, url_is_valid_sound u (ground arith), ground arith)

  finish_complete : (u : ParsedUrl) → IsHttpUrl u → finish lib (ok u) ≡ ok (lib.string (printed u))
  unfolding finish
  finish_complete u h = rw (url_is_valid_complete u h)

  -- `normalizeHTTP` succeeds exactly on texts of at most 2000 runes which, with `http://` in front
  -- where they have no "://", parse to an HTTP URL with no opaque part, no userinfo and a domain name
  -- or IP address as host; the result is that URL printed with no fragment.
  pub normalize_http_iff :
      (raw out : Bytes)
      → (normalize_http lib raw ≡ ok out) ↔ (
          (u : ParsedUrl) × (rune_count raw ≤ 2000)
          × (lib.parse (with_scheme raw) ≡ ok u)
          × IsHttpUrl u
          × (out ≡ lib.string (printed u)))
  unfolding normalize_http
  normalize_http_iff raw out = (
    λ h.
        let short : rune_count raw ≤ 2000 = ground arith in
        let (u, parsed, valid, same) =
          finish_sound (lib.parse (with_scheme raw)) out (ground arith) in
        (u, short, parsed, valid, same),
    λ (u, short, parsed, valid, same). ground (arith, finish_complete u valid),
  )

  printed-printed : (u : ParsedUrl) → IsHttpUrl u → printed (printed u) ≡ printed u
  printed-printed u h = rw (to_lower-scheme (printed u) (IsHttpUrl-printed u h))
