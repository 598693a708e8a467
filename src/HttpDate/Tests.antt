-- ===== src/HttpDate/Tests.antt =====
-- The dates of the source's tests, and the theorem at a leap day.
use elrond.Base.{◌≡◌, refl, codes}
use elrond.HttpDate.{format}

known_dates :
    (format 0 ≡ codes "Thu, 01 Jan 1970 00:00:00 GMT")
    × (format 1000000000 ≡ codes "Sun, 09 Sep 2001 01:46:40 GMT")
    × (format 1709209896 ≡ codes "Thu, 29 Feb 2024 12:31:36 GMT")
unfolding format
known_dates = (refl, refl, refl)
