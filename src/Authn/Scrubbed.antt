-- ===== src/Authn/Scrubbed.antt =====
-- What scrubbing leaves of a header.
use kubegate.Prelude.{◌≡◌, String, [], ◌∷◌, arith, eq_iff, if◌then◌else◌}
use kubegate.Header.{Header, values}
use kubegate.Authn.{is_identity_header, scrub}

-- After `Scrub`, a header through which a client could assert an identity (authorization,
-- impersonate-user, -group or -uid, or one that begins with impersonate-extra- or x-remote-, in any
-- case) has no value, and every other header has the values that it had.
pub values-scrub :
    (k : String) (h : Header)
    → values k (scrub h) ≡ (if is_identity_header k then [] else values k h)
unfolding values scrub
values-scrub k [] = ground arith
values-scrub k ((j, vs) ∷ h) = ground (arith, values-scrub k h, eq_iff j k)
