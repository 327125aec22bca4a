-- ===== src/Redirect/Origin/Same.antt =====
-- src/redirect.rs, `same_origin`: when two URIs have the same origin.
use tlsurl.Base.{
  ℕ, ◌≡◌, ◌↔◌, true, Option, none, some, Text, map, arith, nat_beq_iff, option_eq, option_beq_iff,
  text_eq, text_beq_iff, to_lower, eq_ignore_ascii_case,
}
use mathlib.Core.Option
use tlsurl.Uri.{Uri, Scheme, host, port_or_default, scheme_eq}
use tlsurl.Redirect.Origin.{same_host, same_origin}

-- The origin of a URI: scheme, host without case, and port.
abbrev pub origin_of : Uri → Option Scheme × Option Text × ℕ
origin_of u = (u.scheme, Option.map (map to_lower) (host u), port_or_default u)

same_host_iff :
    (a b : Option Text)
    → (same_host a b ≡ true) ↔ (Option.map (map to_lower) a ≡ Option.map (map to_lower) b)
unfolding eq_ignore_ascii_case
same_host_iff none none = ground arith
same_host_iff none (some b) = ground arith
same_host_iff (some a) none = ground arith
same_host_iff (some a) (some b) = ground (arith, text_beq_iff (map to_lower a) (map to_lower b))

-- Two URIs have the same origin exactly if their schemes, their hosts without regard to ASCII case
-- and their ports, with the scheme's default where none is given, are equal.
pub same_origin_iff : (a b : Uri) → (same_origin a b ≡ true) ↔ (origin_of a ≡ origin_of b)
unfolding same_origin
same_origin_iff a b = ground (
  arith,
  same_host_iff (host a) (host b),
  option_beq_iff a.scheme b.scheme,
  nat_beq_iff (port_or_default a) (port_or_default b),
)
